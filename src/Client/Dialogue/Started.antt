-- ===== src/Client/Dialogue/Started.antt =====
-- client/session.go: what a chat that starts rests on, and what one that does not leaves behind.
use knock.Prelude.{
  insert, ◌⊎◌, none, ℕ, ◌≡◌, refl, sym, ap, ◌∙◌, Option, some, Bytes, eq_bytes, if◌then◌else◌,
  lookup,
}
use knock.Protocol.Envelope.{type_sub, type_sub_ok}
use knock.Protocol.Invite.{Invite}
use knock.Crypto.{fp_hex}
use knock.Client.State.{Contact, load_state, file_of, upsert_contact}
use knock.Client.State.Contacts.{upsert_contact_lem}
use knock.Client.Address.{build_ws_url}
use knock.Client.Request.{
  decoded_file, holds, Trouble, Desk, failed, done, ◌>>◌, return, Outside, request, dial, save,
}
use knock.Client.Request.Waits.{
  After, After-done, After-then, After-imp, IsKept, request-IsKept, dial-After, save-After,
}
use knock.Client.Dialogue.{Chat, own_queue, meet, name_peer, server_of, my_invite, talk, run_chat}
use knock.Client.Dialogue.Queues.{
  IsSame-kept, IsSame-contacts, state, IsSame, IsKnown, kept-IsSame, own_queue-IsKnown,
}
use knock.Client.Dialogue.Peers.{IsPeer, IsNamed, meet-IsMet, name_peer-IsNamed}

module _ (o : Outside) (link server : Bytes) (d : Desk) where
  -- A chat that has started, with the desk at that time.
  pub record IsConnected (c : Chat) (d' : Desk) : Type 0 where
    -- The peer of the command line, the one of the chat, and the link that it is in.
    pub peer : Option (Invite × Bytes)
    pub is_named : IsNamed o link peer
    pub inv : Invite
    pub used : Bytes
    pub is_peer : IsPeer o (inv, used)
    pub of_peer : (peer ≡ none) ⊎ (peer ≡ some (inv, used))
    pub dialled : c.dialled ≡ build_ws_url (server_of server peer).0 (server_of server peer).1
    pub own_invite :
        c.own_invite ≡ my_invite o (server_of server peer).0 (server_of server peer).1 c.outbox
    pub adv_host : c.adv_host ≡ inv.host
    pub inbox : c.inbox ≡ inv.queue_id
    pub outbox : lookup (server_of server peer).0 (state d').outbox ≡ some c.outbox
    -- The contact of the peer is fresh, and the others are as they were.
    pub contact : Contact
    pub contact_link : contact.invite_url ≡ used
    pub contact_seen : contact.last_seen ≡ o.now
    pub contacts :
        (fp : Bytes)
        → lookup fp (state d').contacts ≡ (
            if eq_bytes (fp_hex o.primitives inv.box_pub) fp
            then some contact
            else lookup fp (state d).contacts)

  remembered :
      (peer : Option (Invite × Bytes)) (n : IsNamed o link peer) (qid : Bytes) (p : Invite × Bytes)
      (e e' : Desk)
      → IsKnown o (server_of server peer).0 d qid e
      → IsPeer o p
      → (peer ≡ none) ⊎ (peer ≡ some p)
      → e'.file
        ≡ holds (
            file_of (
              upsert_contact
                (fp_hex o.primitives p.0.box_pub)
                p.1
                o.now
                (load_state (decoded_file e.file))))
      → IsConnected
          (record {
            dialled = build_ws_url (server_of server peer).0 (server_of server peer).1;
            adv_host = p.0.host;
            adv_port = p.0.port;
            own_invite = my_invite o (server_of server peer).0 (server_of server peer).1 qid;
            outbox = qid;
            inbox = p.0.queue_id;
          })
          e'
  remembered peer n qid p e e' known is_peer of_peer file =
      let u =
        upsert_contact_lem (fp_hex o.primitives p.0.box_pub) p.1 o.now
          (load_state (decoded_file e.file)) in
      record {
        peer = peer;
        is_named = n;
        inv = p.0;
        used = p.1;
        is_peer = is_peer;
        of_peer = of_peer;
        dialled = refl;
        own_invite = refl;
        adv_host = refl;
        inbox = refl;
        outbox = rw file (ap (lookup (server_of server peer).0) u.5 ∙ known.0);
        contact = u.0;
        contact_link = u.1;
        contact_seen = u.2;
        contacts = λ fp. rw file (u.4 fp ∙ rw (IsSame-contacts d e known.1));
      }

  -- From the answer to SUB on.
  subscribed-IsConnected :
      (peer : Option (Invite × Bytes)) (n : IsNamed o link peer) (qid : Bytes) (p : Invite × Bytes)
      (e : Desk)
      → IsKnown o (server_of server peer).0 d qid e
      → IsPeer o p
      → (peer ≡ none) ⊎ (peer ≡ some p)
      → (c : Chat)
      → ((e' : Desk)
          → e'.file
            ≡ holds (
                file_of (
                  upsert_contact
                    (fp_hex o.primitives p.0.box_pub)
                    p.1
                    o.now
                    (load_state (decoded_file e.file))))
          → IsConnected c e')
      → After
          (λ c e. IsConnected c e)
          (IsSame d)
          ((save o (
                upsert_contact
                  (fp_hex o.primitives p.0.box_pub)
                  p.1
                  o.now
                  (load_state (decoded_file e.file)))
              >> return c)
            e)
  subscribed-IsConnected peer n qid p e known is_peer of_peer c done_with =
      After-then (save o _ e)
        (After-imp (save o _ e) (save-After o _ e) (λ u e' k. k)
          λ e' k. IsSame-kept d e e' k known.1)
        λ u e' k. After-done c e' (done_with e' k)

  IsKnown-kept :
      (host q : Bytes) (e e' : Desk) → IsKept e e' → IsKnown o host d q e → IsKnown o host d q e'
  IsKnown-kept host q e e' k h = rw k h

  talk-IsConnected :
      (peer : Option (Invite × Bytes)) (queue : Bytes) (d₀ : Desk)
      → IsNamed o link peer
      → IsKept d d₀
      → After
          (λ c e. IsConnected c e)
          (IsSame d)
          (talk o peer (server_of server peer).0 (server_of server peer).1 queue d₀)
  unfolding talk
  talk-IsConnected peer queue d₀ n k₀ =
      After-then (dial o host port d₀)
        (After-imp (dial o host port d₀) (dial-After o host port d₀) (λ u e k. k ∙ k₀)
          λ e k. kept-IsSame o d e (k ∙ k₀))
        λ _ d₁ k₁.
          After-then (own_queue o host queue d₁)
            (After-imp (own_queue o host queue d₁) (own_queue-IsKnown o host queue d₁)
              (λ q e h. rw (sym k₁) h) λ e h. rw (sym k₁) h)
            λ qid d₂ known.
              After-then (meet o peer d₂)
                (After-imp (meet o peer d₂) (meet-IsMet o link peer d₂ n) (λ p e h. h)
                  λ e k. IsSame-kept d d₂ e k known.1)
                λ p d₃ m.
                  After-then (request o type_sub p.0.queue_id type_sub_ok d₃)
                    (After-imp (request o type_sub p.0.queue_id type_sub_ok d₃)
                      (request-IsKept o type_sub p.0.queue_id type_sub_ok d₃)
                      (λ r e k. IsKnown-kept host qid d₂ e (k ∙ m.1.1) known)
                      λ e k. IsSame-kept d d₂ e (k ∙ m.1.1) known.1)
                    λ r d₄ known₄.
                      subscribed-IsConnected peer n qid p d₄ known₄ m.0 m.1.0 _
                        λ d₅ k₅. remembered peer n qid p d₄ d₅ known₄ m.0 m.1.0 k₅
    where
      host : Bytes
      host = (server_of server peer).0

      port : ℕ
      port = (server_of server peer).1

  run_chat-After :
      (queue : Bytes) → After (λ c e. IsConnected c e) (IsSame d) (run_chat o link server queue d)
  unfolding run_chat
  run_chat-After queue =
      After-then (name_peer o link d)
        (After-imp (name_peer o link d) (name_peer-IsNamed o link d) (λ p e h. h)
          λ e k. kept-IsSame o d e k)
        λ peer d₀ h. talk-IsConnected peer queue d₀ h.0 h.1

  -- A chat that starts has dialled the server of the given link, of the flag, or localhost, in this
  -- order; it reads the queue of the invitation in the link that was given or chosen, and the given link
  -- is the one that it uses; the state file names its own queue for the dialled host, and holds the peer
  -- under its fingerprint with that link and the present time, the other contacts as they were.
  pub run_chat_started :
      (queue : Bytes) (c : Chat) (d' : Desk)
      → run_chat o link server queue d ≡ done c d'
      → IsConnected c d'
  run_chat_started queue c d' e = (run_chat-After queue).ends c d' e

  -- A chat that does not start, for whatever reason, leaves the state file as it was, or replaces it by what was
  -- read from it with one entry of the outbox set; either way the contacts that are read from it are
  -- as they were. In the second case nothing else is left of an unreadable file.
  pub run_chat_failed :
      (queue : Bytes) (t : Trouble) (d' : Desk)
      → run_chat o link server queue d ≡ failed t d'
      → ((d'.file ≡ d.file)
          ⊎ ((host : Bytes) × (q : Bytes) × (d'.file
                ≡ holds (file_of (record (state d) { outbox = insert host q (state d).outbox })))))
        × ((state d').contacts ≡ (state d).contacts)
  run_chat_failed queue t d' e =
      let same = (run_chat-After queue).fails t d' e in (same, IsSame-contacts d d' same)
