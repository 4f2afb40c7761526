-- ===== src/Server/Hub/Loop/Lasting.antt =====
-- server/hub.go and server/client.go: runs of the server that cannot panic.
use knock.Prelude.{
  ℕ, ◌≡◌, refl, sym, ◌∙◌, Bool, true, false, Option, none, some, List, [], ◌∷◌, Bytes, ◌==◌, ==_iff,
  All-both, All-imp, Bool-cases, inl, inr, arith,
}
use knock.Protocol.Envelope.{Envelope, Json, Decoded, accepted, parse}
use knock.Server.Store.{Store}
use knock.Server.Run.{Run, ok, panic, Ensures, Ensures-ok, Ensures-bind, Ensures-if}
use knock.Server.Channel.{Channel, fresh, Write, text, waits, close, write_round}
use knock.Server.Channel.Offers.{IsLive}
use knock.Server.Channel.Reader.{Routed, read_round-IsLive, write_round-IsLive}
use knock.Server.Hub.State.{
  Hub, World, update, close_send, unregister, release_queue, new_hub, is_client,
}
use knock.Server.Hub.State.Release.{release_queue-IsFree, release_queue-subs}
use knock.Server.Hub.Handle.Serving.{Never, IsRead, IsServing, IsProper, Calm}
use knock.Server.Hub.Handle.Calmly.{handle-Calm}
use knock.Server.Hub.Loop.{
  Event, connects, leaves, frame, writes, step, run, route, written, serve_ws,
}

-- A sequence of events in which frames come from connections that are there, and every command keeps to
-- the rules.
abbrev pub Proper : (Bytes → ℕ) → (ℕ → Bool) → List (World × Event) → Type 0
Proper reader here [] = Unit
Proper reader here ((w, connects c) ∷ es) = Proper reader (update here c true) es
Proper reader here ((w, leaves c) ∷ es) = Proper reader (update here c false) es
Proper reader here ((w, writes c) ∷ es) = Proper reader here es
Proper reader here ((w, frame c d) ∷ es) =
    (here c ≡ true)
    × ((env : Envelope) → parse d ≡ accepted env → IsProper reader w c env)
    × Proper reader here es

abbrev after : Event → (ℕ → Bool) → ℕ → Bool
after (connects c) here = update here c true
after (leaves c) here = update here c false
after (writes c) here = here
after (frame c d) here = here

IsRead-connects :
    (here : ℕ → Bool) (c r : ℕ) (o : Option ℕ) → IsRead here r o → IsRead (update here c true) r o
unfolding update
IsRead-connects here c r none i = tt
IsRead-connects here c r (some d) i = (i.0, ground (arith, i.1))

IsRead-leaves :
    (here : ℕ → Bool) (c r : ℕ) (o : Option ℕ)
    → is_client o c ≡ false
    → IsRead here r o
    → IsRead (update here c false) r o
unfolding update
IsRead-leaves here c r none f i = tt
IsRead-leaves here c r (some d) f i = (i.0, ground (arith, i.1, f, ==_iff c d, ==_iff d c))

-- A connection that is not there reads nothing.
IsRead-absent :
    (here : ℕ → Bool) (c r : ℕ) (o : Option ℕ)
    → here c ≡ false
    → IsRead here r o
    → is_client o c ≡ false
IsRead-absent here c r none a i = refl
IsRead-absent here c r (some d) a i = elim (Bool-cases (d == c)) [
  | inl same ↦ let gone = rw (sym ((==_iff d c).0 same)) at a in cc (gone, i.1)
  | inr other ↦ other
]

-- A channel is exchanged for one that is live if its connection is there.
live-update :
    (here : ℕ → Bool) (c : ℕ) (chans : ℕ → Channel) (ch : Channel)
    → (here c ≡ true → IsLive ch)
    → ((d : ℕ) → (c == d) ≡ false → here d ≡ true → IsLive (chans d))
    → (d : ℕ) → here d ≡ true
    → IsLive (update chans c ch d)
unfolding update
live-update here c chans ch l rest d k = elim (Bool-cases (c == d)) [
  | inl same ↦ rw same (l (rw (sym ((==_iff c d).0 same)) at k))
  | inr other ↦ rw other (rest d other k)
]

module _ (j : Json) (reader : Bytes → ℕ) (w : World) where
  connects-Calm :
      (here : ℕ → Bool) (c : ℕ) (h : Hub)
      → IsServing here reader h
      → IsServing (update here c true) reader (serve_ws c h)
  unfolding serve_ws update
  connects-Calm here c h s = record {
    present = λ d. ground (arith, s.present d);
    lively =
        live-update (update here c true) c h.chans fresh
          (λ _. record { open_ = refl; fits = omega arith })
          λ d other k. s.lively d (ground (arith, k, other));
    readers = All-imp (λ e i. IsRead-connects here c (reader e.0) (e.1).sub i) h.queues s.readers;
  }

  leaves-Calm :
      (here : ℕ → Bool) (c : ℕ) (h : Hub)
      → IsServing here reader h
      → Calm (update here c false) reader (unregister c h)
  unfolding unregister close_send update
  leaves-Calm here c h s =
      Ensures-if (h.clients c)
        (λ k.
          let k' : here c ≡ true = sym (s.present c) ∙ k in
          rw ((s.lively c k').open_) (
            Ensures-ok _ (record {
              present = λ d. ground (arith, s.present d);
              lively =
                  live-update (update here c false) c h.chans (record (h.chans c) { closed = true })
                    (λ gone. ground (arith, gone))
                    λ d other k. s.lively d (ground (arith, k, other));
              readers =
                  All-imp (λ e i. IsRead-leaves here c (reader e.0) (e.1).sub (i.0).sub i.1)
                    (release_queue c h.queues)
                    (All-both _ _ (release_queue c h.queues) (release_queue-IsFree c h.queues) (
                      release_queue-subs (λ q o. IsRead here (reader q) o) c h.queues (λ q. tt)
                        s.readers));
            })))
        (λ k. Ensures-ok h (record {
          present = λ d. ground (arith, s.present d, k);
          lively = λ d k'. s.lively d (ground (arith, k'));
          readers =
              All-imp
                (λ e i.
                  IsRead-leaves here c (reader e.0) (e.1).sub
                    (IsRead-absent here c (reader e.0) (e.1).sub (sym (s.present c) ∙ k) i) i)
                h.queues s.readers;
        }))

  writes-Calm :
      (here : ℕ → Bool) (c : ℕ) (h : Hub)
      → IsServing here reader h
      → IsServing here reader (written c (write_round (h.chans c)) h)
  writes-Calm here c h s =
      written-IsServing (write_round (h.chans c)) λ e ch x. write_round-IsLive (h.chans c) ch e x
    where
      swapped :
          (e : Envelope) (ch : Channel)
          → (IsLive (h.chans c) → IsLive ch)
          → IsServing here reader (record h { chans = update h.chans c ch })
      swapped e ch l = record {
        present = s.present;
        lively = live-update here c h.chans ch (λ k. l (s.lively c k)) λ d other k. s.lively d k;
        readers = s.readers;
      }

      written-IsServing :
          (x : Write)
          → ((e : Envelope) (ch : Channel) → x ≡ text e ch → IsLive (h.chans c) → IsLive ch)
          → IsServing here reader (written c x h)
      written-IsServing (text e ch) l = unfold written in swapped e ch (l e ch refl)
      written-IsServing waits l = unfold written in s
      written-IsServing close l = unfold written in s

  frame-Calm :
      (here : ℕ → Bool) (c : ℕ) (d : Decoded) (h : Hub)
      → here c ≡ true
      → ((env : Envelope) → parse d ≡ accepted env → IsProper reader w c env)
      → IsServing here reader h
      → Calm here reader (step j w (frame c d) h)
  unfolding step
  frame-Calm here c d h k p s =
      Ensures-bind _ (read_round-IsLive Never j w.now d (h.chans c) (s.lively c k)) λ x r.
        routed x.1 (record h { chans = update h.chans c x.0 }) r.0
          (record {
            present = s.present;
            lively = live-update here c h.chans x.0 (λ _. r.1) λ d other k'. s.lively d k';
            readers = s.readers;
          })
    where
      routed :
          (o : Option Envelope) (g : Hub)
          → Routed (parse d) o
          → IsServing here reader g
          → Calm here reader (route j w c o g)
      routed none g r s' = unfold route in Ensures-ok g s'
      routed (some env) g r s' = unfold route in handle-Calm here reader j w c k env g (p env r) s'

  step-Calm :
      (here : ℕ → Bool) (e : Event) (es : List (World × Event)) (h : Hub)
      → Proper reader here ((w, e) ∷ es)
      → IsServing here reader h
      → Calm (after e here) reader (step j w e h) × Proper reader (after e here) es
  unfolding step
  step-Calm here (connects c) es h p s = (Ensures-ok _ (connects-Calm here c h s), p)
  step-Calm here (leaves c) es h p s = (leaves-Calm here c h s, p)
  step-Calm here (writes c) es h p s = (Ensures-ok _ (writes-Calm here c h s), p)
  step-Calm here (frame c d) es h p s = (frame-Calm here c d h p.0 p.1 s, p.2)

module _ (j : Json) (reader : Bytes → ℕ) where
  run-Never :
      (es : List (World × Event)) (here : ℕ → Bool) (h : Hub)
      → Proper reader here es
      → IsServing here reader h
      → Ensures (λ _. Unit) Never (run j es h)
  unfolding run
  run-Never [] here h p s = Ensures-ok h tt
  run-Never ((w, e) ∷ es) here h p s =
      let (calm, rest) = step-Calm j reader w here e es h p s in
      Ensures-bind _ calm λ g s'. run-Never es (after e here) g rest s'

  new_hub-IsServing : (s : Store) → IsServing (λ _. false) reader (new_hub s)
  unfolding new_hub
  new_hub-IsServing s = record { present = λ c. refl; lively = λ c k. cc; readers = tt }

  -- The server does not panic, and every run returns, from any tables, in any order of connections,
  -- disconnections, reads and writes and with any faults of the driver, if frames come from connections that are
  -- there, each queue is subscribed by one connection alone, crypto/rand delivers 16 bytes or an error,
  -- and the ids of ACKs and the mids of SENDs, those that NewID makes included, have eight bytes or more.
  pub run_returns :
      (s : Store) (es : List (World × Event))
      → Proper reader (λ _. false) es
      → (g : Hub) × (run j es (new_hub s) ≡ ok g)
  run_returns s es p =
      settled (run j es (new_hub s)) (run-Never es (λ _. false) (new_hub s) p (new_hub-IsServing s))
    where
      settled : (r : Run Hub) → Ensures (λ _. Unit) Never r → (g : Hub) × (r ≡ ok g)
      settled (ok g) e = (g, refl)
      settled (panic x) e = absurd (e.panics x refl)
