-- ===== src/Server/Hub/State/Release.antt =====
-- server/hub.go: what releaseQueue leaves of the entries of a connection that goes.
use knock.Prelude.{
  ℕ, ◌≡◌, ◌≢◌, ◌⊎◌, false, Option, none, some, [], ◌∷◌, Bytes, All, Map, Option-cases, inl, inr,
  arith,
}
use knock.Server.Hub.State.{QueueState, idle, is_client, leave, keep_entry, release_queue}

module _ (P : Bytes → Type 0) (c : ℕ) where
  pub release_queue-keys :
      (m : Map QueueState)
      → All (λ (e : Bytes × QueueState). P e.0) m
      → All (λ (e : Bytes × QueueState). P e.0) (release_queue c m)
  unfolding release_queue
  release_queue-keys [] a = tt
  release_queue-keys ((qid, qs) ∷ m) a = elim (Option-cases (leave c qs)) [
    | inl gone ↦ rw (gone, keep_entry) (release_queue-keys m a.1)
    | inr (left, stays) ↦ rw (stays, keep_entry) (a.0, release_queue-keys m a.1)
  ]

-- The entry refers to somebody, and not to the connection.
pub record IsFree (c : ℕ) (qs : QueueState) : Type 0 where
  pub owner : is_client qs.owner c ≡ false
  pub sub : is_client qs.sub c ≡ false
  pub used : qs ≢ idle

leave-IsFree : (c : ℕ) (qs r : QueueState) → leave c qs ≡ some r → IsFree c r
unfolding leave
leave-IsFree c qs r e = record {
  owner = ground arith;
  sub = ground arith;
  used = λ f. ground arith;
}

-- After a release no entry refers to the connection, as owner or as subscriber, and no entry is left
-- that refers to nobody.
pub release_queue-IsFree :
    (c : ℕ) (m : Map QueueState)
    → All (λ (e : Bytes × QueueState). IsFree c e.1) (release_queue c m)
unfolding release_queue
release_queue-IsFree c [] = tt
release_queue-IsFree c ((qid, qs) ∷ m) = elim (Option-cases (leave c qs)) [
  | inl gone ↦ rw (gone, keep_entry) (release_queue-IsFree c m)
  | inr (left, stays) ↦
      rw (stays, keep_entry) (leave-IsFree c qs left stays, release_queue-IsFree c m)
]

leave-sub : (c : ℕ) (qs r : QueueState) → leave c qs ≡ some r → (r.sub ≡ none) ⊎ (r.sub ≡ qs.sub)
unfolding leave
leave-sub c qs r e = ground arith

-- An entry keeps its subscriber or loses it.
pub release_queue-subs :
    (P : Bytes → Option ℕ → Type 0) (c : ℕ) (m : Map QueueState)
    → ((k : Bytes) → P k none)
    → All (λ (e : Bytes × QueueState). P e.0 (e.1).sub) m
    → All (λ (e : Bytes × QueueState). P e.0 (e.1).sub) (release_queue c m)
unfolding release_queue
release_queue-subs P c [] n a = tt
release_queue-subs P c ((qid, qs) ∷ m) n a = elim (Option-cases (leave c qs)) [
  | inl gone ↦ rw (gone, keep_entry) (release_queue-subs P c m n a.1)
  | inr (left, stays) ↦
      let first : P qid left.sub = elim (leave-sub c qs left stays) [
        | inl lost ↦ rw lost (n qid)
        | inr kept ↦ rw kept a.0
      ] in
      rw (stays, keep_entry) (first, release_queue-subs P c m n a.1)
]
