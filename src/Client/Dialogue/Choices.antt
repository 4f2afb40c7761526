-- ===== src/Client/Dialogue/Choices.antt =====
-- client/session.go: what a line of the user stands for.
use knock.Prelude.{
  ℕ, zero, suc, ◌≡◌, ◌≢◌, ◌<◌, refl, some, List, [], ◌∷◌, Bytes, length, Bool-cases, inl, inr,
  arith,
}
use knock.Prelude.Int.{pos}
use knock.Protocol.Invite
use knock.Protocol.Invite.{Invite, Outcome, parse_invite}
use knock.Client.State.{Contact}
use knock.Client.Address.{is_index}
use knock.Client.Address.Index.{to_index-lt}
use knock.Client.Request.{Outside}
use knock.Client.Dialogue.{Chosen, past_end, entry, link_of, parsed, tried, choose}

entry-some : (cs : List Contact) (i : ℕ) → i < length cs → (l : Bytes) × (entry cs (pos i) ≡ some l)
unfolding entry
entry-some [] i h = absurd (omega arith)
entry-some (c ∷ cs) zero h = (c.invite_url, refl)
entry-some (c ∷ cs) (suc i) h = entry-some cs i (omega arith)

link_of-no_contacts : (input : Bytes) → link_of [] input ≡ some input
unfolding link_of is_index
link_of-no_contacts input = refl

-- A line always stands for a link.
link_of-some : (cs : List Contact) (input : Bytes) → (l : Bytes) × (link_of cs input ≡ some l)
unfolding link_of
link_of-some (c ∷ cs) [] = (c.invite_url, refl)
link_of-some [] input = (input, link_of-no_contacts input)
link_of-some (c ∷ cs) (x ∷ xs) = elim (Bool-cases (is_index (x ∷ xs) (length (c ∷ cs)))) [
  | inl index ↦
      let i = to_index-lt (x ∷ xs) (length (c ∷ cs)) index in
      let l = entry-some (c ∷ cs) i.0 i.2 in (l.0, rw (index, i.1) l.1)
  | inr other ↦ (x ∷ xs, rw other)
]

module _ (o : Outside) where
  parsed-in_range :
      (link : Bytes) (r : Outcome Invite) (lines : List Bytes) (later : Chosen)
      → later ≢ past_end
      → parsed link r lines later ≢ past_end
  unfolding parsed
  parsed-in_range link (Invite.ok inv) lines later h e = cc
  parsed-in_range link (Invite.refused r) lines later h e = h e

  -- Whatever the user types, the contact list is never indexed past its end.
  pub choose-in_range : (cs : List Contact) (lines : List Bytes) → choose o cs lines ≢ past_end
  unfolding choose tried
  choose-in_range cs [] e = cc
  choose-in_range cs (line ∷ lines) e =
      let l = link_of-some cs line in
      parsed-in_range l.0 _ lines (choose o cs lines) (choose-in_range cs lines) (rw l.1 at e)
