-- ===== src/Server/Store/Writes.antt =====
-- server/store.go: chains of statements, and what every chain keeps.
use knock.Prelude.{
  ℕ, ◌≡◌, ◌≢◌, refl, ◌⊎◌, inl, inr, Bool, true, not, some, List, [], ◌∷◌, ◌++◌, Bytes, eq_bytes,
  eq_bytes_iff, select, Option, Option-cases, Bool-cases,
}
use knock.Server.Store.{MessageRow, Store, Faults, touch_queue, or_same}
use knock.Server.Store.Effects.{
  row, create_queue-eq-some, save_message-eq-some, touch_queue-eq-some, delete_message-eq-some,
}
use knock.Server.Store.Changes.{
  Change, creates, touches, deletes, saves, marks, sweeps_messages, sweeps_queues, sweeps_delivered,
  change,
}

-- A row is among the rows of a table.
abbrev pub In : MessageRow → List MessageRow → Type 0
In r [] = ⊥
In r (x ∷ xs) = (x ≡ r) ⊎ In r xs

pub In-append : (r : MessageRow) (xs ys : List MessageRow) → In r xs → In r (xs ++ ys)
In-append r [] ys i = elim i [ ]
In-append r (x ∷ xs) ys (inl e) = inl e
In-append r (x ∷ xs) ys (inr h) = inr (In-append r xs ys h)

pub In-append_last : (r : MessageRow) (xs : List MessageRow) → In r (xs ++ r ∷ [])
In-append_last r [] = inl refl
In-append_last r (x ∷ xs) = inr (In-append_last r xs)

pub In-select :
    (r : MessageRow) (p : MessageRow → Bool) (xs : List MessageRow)
    → p r ≡ true
    → In r xs
    → In r (select p xs)
In-select r p [] h i = elim i [ ]
In-select r p (x ∷ xs) h (inl e) = rw (e, h) (inl refl)
In-select r p (x ∷ xs) h (inr i) = elim (Bool-cases (p x)) [
  | inl keep ↦ rw keep (inr (In-select r p xs h i))
  | inr drop ↦ rw drop (In-select r p xs h i)
]

-- The statements of the commands: all but marks and sweeps, and the deletes of one mid at most.
abbrev pub Allowed : Option Bytes → Change → Type 0
Allowed acked (creates qid) = Unit
Allowed acked (touches qid) = Unit
Allowed acked (saves m) = Unit
Allowed acked (deletes mid) = acked ≡ some mid
Allowed acked (marks mid) = ⊥
Allowed acked (sweeps_messages n) = ⊥
Allowed acked (sweeps_queues n) = ⊥
Allowed acked (sweeps_delivered n) = ⊥

-- `t` is what a row of successful statements makes of `s`.
pub data Writes (f : Faults) (now : ℕ) (acked : Option Bytes) (s : Store) : Store → Type 0 where
  done : Writes f now acked s s
  next :
      {t u : Store}
      → Writes f now acked s t
      → (x : Change) → Allowed acked x
      → change f now x t ≡ some u
      → Writes f now acked s u

change-In :
    (f : Faults) (now : ℕ) (acked : Option Bytes) (r : MessageRow) (x : Change) (t u : Store)
    → acked ≢ some r.mid
    → Allowed acked x
    → change f now x t ≡ some u
    → In r t.messages
    → In r u.messages
unfolding change
change-In f now acked r (creates qid) t u n a e i = elim (create_queue-eq-some f t u qid now e) [
  | inl same ↦ rw same.1 i
  | inr new ↦ rw new.1 i
]
change-In f now acked r (touches qid) t u n a e i = rw (touch_queue-eq-some f t u qid now e) i
change-In f now acked r (deletes mid) t u n a e i =
    rw (delete_message-eq-some f t u mid e)
      (In-select r (λ m. not (eq_bytes m.mid mid)) t.messages other i)
  where
    other : not (eq_bytes r.mid mid) ≡ true
    other = elim (Bool-cases (eq_bytes r.mid mid)) [
      | inl same ↦ absurd (n (cc (a, (eq_bytes_iff r.mid mid).0 same)))
      | inr differ ↦ rw differ
    ]
change-In f now acked r (saves m) t u n a e i =
    rw ((save_message-eq-some f t u m e).2) (In-append r t.messages (row m ∷ []) i)
change-In f now acked r (marks mid) t u n a e i = absurd a
change-In f now acked r (sweeps_messages k) t u n a e i = absurd a
change-In f now acked r (sweeps_queues k) t u n a e i = absurd a
change-In f now acked r (sweeps_delivered k) t u n a e i = absurd a

module _ {f : Faults} {now : ℕ} {acked : Option Bytes} {s : Store} where
  pub Writes-In :
      {t : Store} (r : MessageRow)
      → acked ≢ some r.mid
      → Writes f now acked s t
      → In r s.messages
      → In r t.messages
  Writes-In r n done i = i
  Writes-In r n (next {t = u} {u = t} c x a e) i =
      change-In f now acked r x u t n a e (Writes-In r n c i)

  -- TouchQueue, whose error the hub ignores.
  pub Writes-touch :
      {t : Store} (qid : Bytes)
      → Writes f now acked s t
      → Writes f now acked s (or_same (touch_queue f qid now t) t)
  Writes-touch {t} qid c = elim (Option-cases (touch_queue f qid now t)) [
    | inl bad ↦ rw bad c
    | inr (u, good) ↦ rw good (next {u = u} c (touches qid) tt (unfold change in good))
  ]
