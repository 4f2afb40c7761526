-- ===== src/Client/Request/Answers.antt =====
-- client/session.go: what a request that is done has got.
use knock.Prelude.{◌≡◌, refl, Option, none, some, List, [], ◌∷◌, ◌++◌, Bytes, ℕ}
use knock.Protocol.Envelope.{Envelope, Decoded}
use knock.Client.Address.{build_ws_url}
use knock.Client.Request.{
  Desk, Outside, Answer, answer, rejected, silent, await, answered, written, request, dial,
}
use knock.Client.Request.Waits.{After, After-done, After-failed, After-if}

answered-answers :
    (want : Bytes) (d d₀ : Desk)
    → After
        (λ r d'. await want d₀.incoming ≡ (answer r, d'.incoming))
        (λ _. Unit)
        (answered (await want d₀.incoming) d)
answered-answers want d d₀ = go (await want d₀.incoming)
  where
    go :
        (x : Answer × List Decoded)
        → After (λ r d'. x ≡ (answer r, d'.incoming)) (λ _. Unit) (answered x d)
    go (answer e, rest) = unfold answered in After-done e _ refl
    go (rejected e, rest) = unfold answered in After-failed _ _ tt
    go (silent, rest) = unfold answered in After-failed _ _ tt

written-answers :
    (o : Outside) (e : Option Envelope) (want : Bytes) (d : Desk)
    → After
        (λ r d'. await want d.incoming ≡ (answer r, d'.incoming))
        (λ _. Unit)
        (written o e want d)
unfolding written
written-answers o none want d = After-failed _ d tt
written-answers o (some e) want d =
    After-if (o.writes e) (λ w. answered-answers want (record d { sent = d.sent ++ e ∷ [] }) d)
      λ w. After-failed _ d tt

-- A request that is done has the answer of the wait.
pub request-answers :
    (o : Outside) (msg_type qid want : Bytes) (d : Desk)
    → After
        (λ r d'. await want d.incoming ≡ (answer r, d'.incoming))
        (λ _. Unit)
        (request o msg_type qid want d)
unfolding request
request-answers o msg_type qid want d = written-answers o _ want d

-- A dial leaves everything as it was.
pub dial-same :
    (o : Outside) (host : Bytes) (port : ℕ) (d : Desk)
    → After (λ u d'. d' ≡ d) (λ _. Unit) (dial o host port d)
unfolding dial
dial-same o host port d =
    After-if (o.dials (build_ws_url host port)) (λ good. After-done tt d refl)
      λ bad. After-failed _ d tt
