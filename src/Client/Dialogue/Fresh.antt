-- ===== src/Client/Dialogue/Fresh.antt =====
-- client/main.go: runNew. The link that it prints is for the queue that the server has made.
use mathlib.Core.Option
use knock.Prelude.{ℕ, ◌≡◌, refl, sym, ◌∙◌, [], ◌∷◌, List, Bytes}
use knock.Protocol.Envelope.{Envelope, Decoded, type_new, type_new_ok}
use knock.Client.Address.{parse_addr}
use knock.Client.Request.{Desk, done, Outside, Answer, answer, await, request, dial}
use knock.Client.Request.Waits.{After, After-done, After-then}
use knock.Client.Request.Answers.{request-answers, dial-same}
use knock.Client.Dialogue.{my_invite, new_link, run_new}

answer-injective :
    (a b : Envelope) (r s : List Decoded)
    → ◌≡◌ {A = Answer × List Decoded} (answer a, r) (answer b, s)
    → a ≡ b
answer-injective a b r s e = cc

module _ (o : Outside) where
  new_link-After :
      (host : Bytes) (port : ℕ) (d : Desk)
      → After
          (λ link d'.
            (r : Envelope) × (await type_new_ok d.incoming ≡ (answer r, d'.incoming))
            × (link ≡ my_invite o host port (Option.get_or (o.new_ok_of r.payload) [])))
          (λ _. Unit)
          (new_link o host port d)
  unfolding new_link
  new_link-After host port d =
      After-then (dial o host port d) (dial-same o host port d) λ u d₁ same.
        After-then (request o type_new [] type_new_ok d₁)
          (request-answers o type_new [] type_new_ok d₁)
          λ r d₂ got. After-done _ d₂ (r, rw (sym same) got, refl)

  -- What runNew prints for an address, when the wait for NEW_OK ends in the answer `resp`.
  pub run_new-my_invite :
      (x : ℕ) (xs link : Bytes) (d d' : Desk) (resp : Envelope) (rest : List Decoded)
      → await type_new_ok d.incoming ≡ (answer resp, rest)
      → run_new o (x ∷ xs) d ≡ done link d'
      → link
        ≡ my_invite o
            (parse_addr (x ∷ xs)).0
            (parse_addr (x ∷ xs)).1
            (Option.get_or (o.new_ok_of resp.payload) [])
  unfolding run_new
  run_new-my_invite x xs link d d' resp rest a e =
      let n = (new_link-After (parse_addr (x ∷ xs)).0 (parse_addr (x ∷ xs)).1 d).ends link d' e in
      rw (answer-injective resp n.0 rest d'.incoming (sym a ∙ n.1)) n.2
