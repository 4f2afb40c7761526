-- ===== src/Client/Request/Waits.antt =====
-- client/session.go: what a request waits for, and that it does not touch the file.
use knock.Prelude.{
  ℕ, ◌≡◌, refl, sym, Bool, true, false, Option, none, some, List, [], ◌∷◌, ◌++◌, Bytes, codes,
  eq_bytes, eq_bytes_refl, if◌then◌else◌, All,
}
use knock.Protocol.Envelope.{
  Envelope, type_error, Decoded, accepted, parse, nothing, new_envelope, sealed, marshal,
  struct_text,
}
use mathlib.Core.Option
use knock.Server.Channel.{encode}
use knock.Client.Address.{build_ws_url}
use knock.Client.State.{State, file_of}
use knock.Client.Request.{
  holds, Trouble, Desk, Ran, failed, done, M, and_then, Outside, Answer, answer, rejected, silent,
  pick, taken, await, answered, written, request, dial, save,
}

-- What holds of the value and the desk when code is done, and of the desk when it fails.
pub record After {A : Type 0} (Q : A → Desk → Type 0) (E : Desk → Type 0) (r : Ran A) : Type 0 where
  pub ends : (a : A) (d : Desk) → r ≡ done a d → Q a d
  pub fails : (t : Trouble) (d : Desk) → r ≡ failed t d → E d

done-injective :
    {A : Type 0} (a b : A) (d d' : Desk)
    → ◌≡◌ {A = Ran A} (done a d) (done b d')
    → (a ≡ b) × (d ≡ d')
done-injective a b d d' e = (cc, cc)

failed-injective :
    (A : Type 0) (t t' : Trouble) (d d' : Desk)
    → ◌≡◌ {A = Ran A} (failed t d) (failed t' d')
    → d ≡ d'
failed-injective A t t' d d' e = cc

module _ {A : Type 0} {Q : A → Desk → Type 0} {E : Desk → Type 0} where
  pub After-done : (a : A) (d : Desk) → Q a d → After Q E (done a d)
  After-done a d h = record {
    ends = λ b d' e. let q = done-injective a b d d' e in rw (sym q.0, sym q.1) h;
    fails = λ t d' e. cc;
  }

  pub After-failed : (t : Trouble) (d : Desk) → E d → After Q E (failed t d)
  After-failed t d h = record {
    ends = λ a d' e. cc;
    fails = λ t' d' e. rw (sym (failed-injective A t t' d d' e)) h;
  }

  pub After-if :
      (b : Bool) {r s : Ran A}
      → (b ≡ true → After Q E r)
      → (b ≡ false → After Q E s)
      → After Q E (if b then r else s)
  After-if true h k = h refl
  After-if false h k = k refl

-- A step, then what follows it.
pub After-then :
    {A B : Type 0} {Q : A → Desk → Type 0} {R : B → Desk → Type 0} {E : Desk → Type 0} (r : Ran A)
    {k : A → M B}
    → After Q E r
    → ((a : A) (d : Desk) → Q a d → After R E (k a d))
    → After R E (and_then r k)
After-then (failed t d) h n = After-failed t d (h.fails t d refl)
After-then (done a d) h n = n a d (h.ends a d refl)

-- The same result with weaker properties.
pub After-imp :
    {A : Type 0} {Q R : A → Desk → Type 0} {E F : Desk → Type 0} (r : Ran A)
    → After Q E r
    → ((a : A) (d : Desk) → Q a d → R a d)
    → ((d : Desk) → E d → F d)
    → After R F r
After-imp (failed t d) h f g = After-failed t d (g d (h.fails t d refl))
After-imp (done a d) h f g = After-done a d (f a d (h.ends a d refl))

-- The state file is as it was.
abbrev pub IsKept : Desk → Desk → Type 0
IsKept d d' = d'.file ≡ d.file

answered-IsKept :
    (r : Answer × List Decoded) (d : Desk) → After (λ e d'. IsKept d d') (IsKept d) (answered r d)
unfolding answered
answered-IsKept (answer e, rest) d = After-done e _ refl
answered-IsKept (rejected e, rest) d = After-failed _ _ refl
answered-IsKept (silent, rest) d = After-failed _ _ refl

written-IsKept :
    (o : Outside) (e : Option Envelope) (want : Bytes) (d : Desk)
    → After (λ r d'. IsKept d d') (IsKept d) (written o e want d)
unfolding written
written-IsKept o none want d = After-failed _ d refl
written-IsKept o (some e) want d =
    After-if (o.writes e)
      (λ w. answered-IsKept (await want d.incoming) (record d { sent = d.sent ++ e ∷ [] }))
      λ w. After-failed _ d refl

-- A request does not touch the file.
pub request-IsKept :
    (o : Outside) (msg_type qid want : Bytes) (d : Desk)
    → After (λ r d'. IsKept d d') (IsKept d) (request o msg_type qid want d)
unfolding request
request-IsKept o msg_type qid want d = written-IsKept o _ want d

pub dial-After :
    (o : Outside) (host : Bytes) (port : ℕ) (d : Desk)
    → After (λ u d'. IsKept d d') (IsKept d) (dial o host port d)
unfolding dial
dial-After o host port d =
    After-if (o.dials (build_ws_url host port)) (λ good. After-done tt d refl)
      λ bad. After-failed _ d refl

pub save-After :
    (o : Outside) (st : State) (d : Desk)
    → After (λ u d'. d'.file ≡ holds (file_of st)) (IsKept d) (save o st d)
unfolding save
save-After o st d =
    After-if (o.saves (file_of st)) (λ good. After-done tt _ refl) λ bad. After-failed _ d refl

-- Frames that do not end the wait.
abbrev pub IsSkipped : Bytes → List Decoded → Type 0
IsSkipped want fs = All (λ f. pick want (parse f) ≡ none) fs

await-append :
    (want : Bytes) (skipped : List Decoded) (rest : List Decoded)
    → IsSkipped want skipped
    → await want (skipped ++ rest) ≡ await want rest
unfolding await taken
await-append want [] rest h = refl
await-append want (f ∷ fs) rest h = rw (h.0, await-append want fs rest h.1)

pick-answer :
    (want : Bytes) (f : Decoded) (resp : Envelope)
    → parse f ≡ accepted resp
    → resp.msg_type ≡ want
    → eq_bytes want type_error ≡ false
    → pick want (parse f) ≡ some (answer resp)
unfolding pick
pick-answer want f resp p t n = rw (p, t, n, eq_bytes_refl want)

await-answer :
    (want : Bytes) (f : Decoded) (rest : List Decoded) (resp : Envelope)
    → pick want (parse f) ≡ some (answer resp)
    → await want (f ∷ rest) ≡ (answer resp, rest)
unfolding await taken
await-answer want f rest resp p = rw p

written_lem :
    (o : Outside) (want : Bytes) (e resp : Envelope) (skipped rest : List Decoded) (f : Decoded)
    (d : Desk)
    → o.writes e ≡ true
    → IsSkipped want skipped
    → parse f ≡ accepted resp
    → resp.msg_type ≡ want
    → eq_bytes want type_error ≡ false
    → d.incoming ≡ skipped ++ f ∷ rest
    → written o (some e) want d ≡ done resp (record d { incoming = rest; sent = d.sent ++ e ∷ [] })
unfolding written answered
written_lem o want e resp skipped rest f d w h p t n inc = rw (
  w,
  inc,
  await-append want skipped (f ∷ rest) h,
  await-answer want f rest resp (pick-answer want f resp p t n),
)

-- The frame of a request without a payload.
abbrev pub frame : Outside → Bytes → Bytes → Envelope
frame o msg_type qid = sealed o.now msg_type qid [] (codes "{}")

frame_lem :
    (o : Outside) (msg_type qid : Bytes)
    → Option.bind (new_envelope o.json o.now msg_type qid [] nothing) (encode o.json)
      ≡ some (frame o msg_type qid)
unfolding new_envelope marshal encode struct_text Option.bind
frame_lem o msg_type qid = rw (o.json.compact-own nothing tt)

-- A request whose frame is written returns the first answer of the type that it waits for, whatever
-- frames come before it that do not parse or are of another type, but not ERROR, and it leaves the
-- frames behind the answer unread.
pub request_lem :
    (o : Outside) (msg_type qid want : Bytes) (resp : Envelope) (skipped rest : List Decoded)
    (f : Decoded) (d : Desk)
    → o.writes (frame o msg_type qid) ≡ true
    → IsSkipped want skipped
    → parse f ≡ accepted resp
    → resp.msg_type ≡ want
    → eq_bytes want type_error ≡ false
    → d.incoming ≡ skipped ++ f ∷ rest
    → request o msg_type qid want d
      ≡ done resp (record d { incoming = rest; sent = d.sent ++ frame o msg_type qid ∷ [] })
unfolding request
request_lem o msg_type qid want resp skipped rest f d w h p t n inc =
    rw (frame_lem o msg_type qid)
      (written_lem o want (frame o msg_type qid) resp skipped rest f d w h p t n inc)
