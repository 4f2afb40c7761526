-- ===== src/Client/Dialogue/Peers.antt =====
-- client/session.go: the peer of a chat is the one in the link that was given or chosen.
use knock.Prelude.{
  ◌⊎◌, inl, inr, ℕ, ◌≡◌, refl, sym, Option, none, some, List, [], ◌∷◌, Bytes, ltb, length, any,
}
use knock.Protocol.Invite
use knock.Protocol.Invite.{Invite, Refusal, Outcome, parse_invite}
use knock.Client.State.{Contact, sorted_contacts}
use knock.Client.Request.{Desk, Outside}
use knock.Client.Request.Waits.{After, After-done, After-failed, After-if, After-imp, IsKept}
use knock.Client.Dialogue.Queues.{state}
use mathlib.Core.Option.{some-injective}
use knock.Client.Dialogue.{
  Chosen, no_line, past_end, chosen, link_of, parsed, tried, choose, met, ask, meet, named,
  name_peer,
}

module _ (o : Outside) where
  -- A choice leads to the invitation in the link.
  abbrev IsTaken : Chosen → Type 0
  IsTaken (chosen inv link rest) = parse_invite o.primitives.sha256 link ≡ Invite.ok inv
  IsTaken _ = Unit

  parsed-IsTaken :
      (link : Bytes) (r : Outcome Invite) (lines : List Bytes) (later : Chosen)
      → parse_invite o.primitives.sha256 link ≡ r
      → IsTaken later
      → IsTaken (parsed link r lines later)
  unfolding parsed
  parsed-IsTaken link (Invite.ok inv) lines later e h = e
  parsed-IsTaken link (Invite.refused r) lines later e h = h

  tried-IsTaken :
      (r : Option Bytes) (lines : List Bytes) (later : Chosen)
      → IsTaken later
      → IsTaken (tried o r lines later)
  unfolding tried
  tried-IsTaken none lines later h = tt
  tried-IsTaken (some link) lines later h = parsed-IsTaken link _ lines later refl h

  choose-IsTaken : (cs : List Contact) (lines : List Bytes) → IsTaken (choose o cs lines)
  unfolding choose
  choose-IsTaken cs [] = tt
  choose-IsTaken cs (line ∷ lines) =
      tried-IsTaken (link_of cs line) lines (choose o cs lines) (choose-IsTaken cs lines)

  -- The peer that a chat has is the one in the link that it has.
  abbrev pub IsPeer : Invite × Bytes → Type 0
  IsPeer p = parse_invite o.primitives.sha256 p.1 ≡ Invite.ok p.0

  met-IsPeer :
      (c : Chosen) (d : Desk)
      → IsTaken c
      → After (λ p e. IsPeer p × IsKept d e) (IsKept d) (met c d)
  unfolding met
  met-IsPeer no_line d h = After-failed _ _ refl
  met-IsPeer past_end d h = After-failed _ d refl
  met-IsPeer (chosen inv link rest) d h = After-done _ _ (h, refl)

  -- A peer of the command line is the one in its link.
  abbrev pub IsNamed : Bytes → Option (Invite × Bytes) → Type 0
  IsNamed [] peer = peer ≡ none
  IsNamed (c ∷ cs) none = ⊥
  IsNamed (c ∷ cs) (some p) = (p.1 ≡ c ∷ cs) × IsPeer p

  named-IsPeer :
      (link : Bytes) (peer : Option (Invite × Bytes)) (p : Invite × Bytes)
      → IsNamed link peer
      → peer ≡ some p
      → IsPeer p
  named-IsPeer [] peer p n e = let e' = rw n at e in cc
  named-IsPeer (c ∷ cs) none p n e = absurd n
  named-IsPeer (c ∷ cs) (some q) p n e = rw (sym (some-injective q p e)) n.1

  -- The peer that is met is the one that was named, if there is one.
  abbrev pub IsMet : Option (Invite × Bytes) → Desk → Invite × Bytes → Desk → Type 0
  IsMet peer d p e = IsPeer p × (((peer ≡ none) ⊎ (peer ≡ some p)) × IsKept d e)

  pub meet-IsMet :
      (link : Bytes) (peer : Option (Invite × Bytes)) (d : Desk)
      → IsNamed link peer
      → After (λ p e. IsMet peer d p e) (IsKept d) (meet o peer d)
  unfolding meet ask
  meet-IsMet link none d n =
      After-if (any (λ (c : Contact). ltb (length c.fingerprint) 8) (sorted_contacts (state d)))
        (λ short. After-failed _ d refl)
        λ long.
          After-imp _ (met-IsPeer _ d (choose-IsTaken (sorted_contacts (state d)) d.lines))
            (λ p e h. (h.0, (inl refl, h.1))) λ e k. k
  meet-IsMet link (some p) d n =
      After-done p d (named-IsPeer link (some p) p n refl, (inr refl, refl))

  named-IsNamed :
      (c : ℕ) (cs : Bytes) (r : Outcome Invite) (d : Desk)
      → parse_invite o.primitives.sha256 (c ∷ cs) ≡ r
      → After (λ peer e. IsNamed (c ∷ cs) peer × IsKept d e) (IsKept d) (named (c ∷ cs) r d)
  unfolding named
  named-IsNamed c cs (Invite.ok inv) d e = After-done _ d ((refl, e), refl)
  named-IsNamed c cs (Invite.refused r) d e = After-failed _ d refl

  pub name_peer-IsNamed :
      (link : Bytes) (d : Desk)
      → After (λ peer e. IsNamed link peer × IsKept d e) (IsKept d) (name_peer o link d)
  unfolding name_peer
  name_peer-IsNamed [] d = After-done none d (refl, refl)
  name_peer-IsNamed (c ∷ cs) d = named-IsNamed c cs _ d refl
