-- ===== src/Database/Notices.antt =====
-- Notifications are created once for each key.
use apag_be.Prelude.{
  ℕ, ◌≡◌, ◌≢◌, refl, Bool-cases, inl, inr, true, false, ◌==◌, none, List, [], ◌∷◌, ◌++◌, any, All,
  arith,
}
use apag_be.Database.Rows.{Notification, Content, Event, Env}
use apag_be.Database.Write.{create_notification_once}

-- No two rows have one key.
abbrev pub UniqueKeys : List Notification → Type 0
UniqueKeys [] = Unit
UniqueKeys (n ∷ ns) = All (λ m. n.dedupe_key ≢ m.dedupe_key) ns × UniqueKeys ns

append-key :
    (key : ℕ) (new : Notification) (ns : List Notification)
    → All (λ m. key ≢ m.dedupe_key) ns
    → key ≢ new.dedupe_key
    → All (λ m. key ≢ m.dedupe_key) (ns ++ new ∷ [])
append-key key new [] h k = (k, tt)
append-key key new (n ∷ ns) h k = (h.0, append-key key new ns h.1 k)

append-UniqueKeys :
    (new : Notification) (ns : List Notification)
    → UniqueKeys ns
    → any (λ n. n.dedupe_key == new.dedupe_key) ns ≡ false
    → UniqueKeys (ns ++ new ∷ [])
append-UniqueKeys new [] u h = (tt, tt)
append-UniqueKeys new (n ∷ ns) u h =
    (append-key n.dedupe_key new ns u.0 (ground arith), append-UniqueKeys new ns u.1 (ground arith))

any-append :
    (key : ℕ) (new : Notification) (ns : List Notification)
    → new.dedupe_key ≡ key
    → any (λ n. n.dedupe_key == key) (ns ++ new ∷ []) ≡ true
any-append key new [] h = ground arith
any-append key new (n ∷ ns) h = ground (arith, any-append key new ns h)

-- Creating a notification keeps the keys of the table unique; and creating it again, in the table
-- that results, creates nothing and changes nothing.
pub create_notification_once-idempotent :
    (env : Env) (user_id : ℕ) (content : Content) (event : Event) (table : List Notification)
    → UniqueKeys table
    → UniqueKeys (create_notification_once env user_id content event table).1
      × (create_notification_once env user_id content event
            (create_notification_once env user_id content event table).1
          ≡ (none, (create_notification_once env user_id content event table).1))
unfolding create_notification_once
create_notification_once-idempotent env user_id content event table u =
    let key = env.digest user_id event in
    let new : Notification = record { dedupe_key = key; user_id = user_id; content = content } in
    elim (Bool-cases (any (λ n. n.dedupe_key == key) table)) [
      | inl e ↦ rw e (u, rw e refl)
      | inr e ↦ rw e (append-UniqueKeys new table u e, rw (any-append key new table refl) refl)
    ]
