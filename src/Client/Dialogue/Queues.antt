-- ===== src/Client/Dialogue/Queues.antt =====
-- client/session.go: the queue of one's own is in the state file.
use knock.Prelude.{
  ℕ, ◌≡◌, ◌⊎◌, inl, inr, refl, ap, ◌∙◌, Option, none, some, [], ◌∷◌, Bytes, eq_bytes, eq_bytes_iff,
  lookup, insert, lookup-insert_self,
}
use knock.Protocol.Envelope.{type_new, type_new_ok}
use knock.Client.State.{State, load_state, file_of}
use knock.Client.Address.{valid_qid}
use knock.Client.Request.{decoded_file, holds, Desk, ◌>>◌, return, Outside, request, save}
use knock.Client.Request.Waits.{
  After, After-done, After-failed, After-if, After-then, After-imp, IsKept, request-IsKept,
  save-After,
}
use knock.Client.Dialogue.{queue_id_of, new_queue, reuse, given_queue, own_queue}

-- The state that the file holds.
abbrev pub state : Desk → State
state d = load_state (decoded_file d.file)

-- The state file is as it was, or holds what was read from it with one entry of the outbox set.
abbrev pub IsSame : Desk → Desk → Type 0
IsSame d d' =
    (d'.file ≡ d.file)
    ⊎ ((host : Bytes) × (q : Bytes) × (d'.file
          ≡ holds (file_of (record (state d) { outbox = insert host q (state d).outbox }))))

-- The contacts are as they were read.
pub IsSame-contacts : (d d' : Desk) → IsSame d d' → (state d').contacts ≡ (state d).contacts
unfolding load_state file_of
IsSame-contacts d d' (inl k) = ap (λ f. (load_state (decoded_file f)).contacts) k
IsSame-contacts d d' (inr (host, q, k)) = rw k

pub IsSame-kept : (d d' e : Desk) → IsKept d' e → IsSame d d' → IsSame d e
IsSame-kept d d' e k s = rw k s

module _ (o : Outside) where
  -- The file names the queue for the host.
  abbrev pub IsKnown : Bytes → Desk → Bytes → Desk → Type 0
  IsKnown host d q d' = (lookup host (state d').outbox ≡ some q) × IsSame d d'

  pub kept-IsSame : (d d' : Desk) → IsKept d d' → IsSame d d'
  kept-IsSame d d' k = inl k

  -- The entry of a host is set and the state is saved.
  noted-IsKnown :
      (host q : Bytes) (d d' : Desk)
      → IsSame d d'
      → After
          (λ q' e. IsKnown host d q' e)
          (IsSame d)
          ((save o (record (state d) { outbox = insert host q (state d).outbox }) >> return q) d')
  unfolding load_state file_of
  noted-IsKnown host q d d' h =
      After-then (save o _ d')
        (After-imp (save o _ d') (save-After o _ d') (λ u e k. k) λ e k. IsSame-kept d d' e k h)
        λ u e k.
          After-done q e (rw k (lookup-insert_self host q (state d).outbox), inr (host, q, k))

  queue_id_of-IsSame :
      (r : Option Bytes) (d d' : Desk)
      → IsSame d d'
      → After (λ q e. IsSame d e) (IsSame d) (queue_id_of r d')
  unfolding queue_id_of
  queue_id_of-IsSame none d d' h = After-failed _ d' h
  queue_id_of-IsSame (some []) d d' h = After-failed _ d' h
  queue_id_of-IsSame (some (c ∷ cs)) d d' h = After-done _ d' h

  new_queue-IsKnown :
      (host : Bytes) (d : Desk)
      → After (λ q e. IsKnown host d q e) (IsSame d) (new_queue o host (state d) d)
  unfolding new_queue
  new_queue-IsKnown host d =
      After-then (request o type_new [] type_new_ok d)
        (After-imp (request o type_new [] type_new_ok d)
          (request-IsKept o type_new [] type_new_ok d) (λ r e k. kept-IsSame d e k)
          λ e k. kept-IsSame d e k)
        λ r e h.
          After-then (queue_id_of (o.new_ok_of r.payload) e)
            (queue_id_of-IsSame (o.new_ok_of r.payload) d e h)
            λ q e' h'. noted-IsKnown host q d e' h'

  reuse-IsKnown :
      (host : Bytes) (d : Desk) (r : Option Bytes)
      → lookup host (state d).outbox ≡ r
      → After (λ q e. IsKnown host d q e) (IsSame d) (reuse o host (state d) r d)
  unfolding reuse
  reuse-IsKnown host d none e = new_queue-IsKnown host d
  reuse-IsKnown host d (some q) e =
      After-if (valid_qid q) (λ v. After-done q d (e, inl refl)) λ v. new_queue-IsKnown host d

  given_queue-IsKnown :
      (host : Bytes) (c : ℕ) (cs : Bytes) (d : Desk) (r : Option Bytes)
      → lookup host (state d).outbox ≡ r
      → After (λ q e. IsKnown host d q e) (IsSame d) (given_queue o host (state d) (c ∷ cs) d)
  unfolding given_queue eq_bytes
  given_queue-IsKnown host c cs d none l = rw l (noted-IsKnown host (c ∷ cs) d d (inl refl))
  given_queue-IsKnown host c cs d (some q) l = rw l (
      After-if (eq_bytes q (c ∷ cs))
        (λ same.
          After-done (c ∷ cs) d
            (l ∙ ap (λ (x : Bytes). some x) ((eq_bytes_iff q (c ∷ cs)).0 same), inl refl))
        λ other. noted-IsKnown host (c ∷ cs) d d (inl refl))

  pub own_queue-IsKnown :
      (host queue : Bytes) (d : Desk)
      → After (λ q e. IsKnown host d q e) (IsSame d) (own_queue o host queue d)
  unfolding own_queue
  own_queue-IsKnown host [] d = reuse-IsKnown host d (lookup host (state d).outbox) refl
  own_queue-IsKnown host (c ∷ cs) d =
      After-if (valid_qid (c ∷ cs))
        (λ v. given_queue-IsKnown host c cs d (lookup host (state d).outbox) refl)
        λ v. After-failed _ d (inl refl)
