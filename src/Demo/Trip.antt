-- ===== src/Demo/Trip.antt =====
-- A frame of src/demo_util.c that is sent on one socket and received on another.
use udp_secure_transfer.Prelude.{ℕ, ◌+◌, ◌/◌, ◌≤◌, ◌<◌, ◌^◌, ◌≡◌, refl, arith, ap, sym, ◌∙◌}
use udp_secure_transfer.Prelude.{Bool, true, false, Option, some, List, [], ◌++◌, length}
use udp_secure_transfer.Prelude.{take, drop, append_assoc, take-append-drop}
use udp_secure_transfer.Prelude.{ltb, ◌&&◌, Bool-cases, inl, inr}
use udp_secure_transfer.Protocol.Bytes.{put_u16, put_u32, get_u16, get_u32, get_u16-put_u16}
use udp_secure_transfer.Demo.Stream.{Socket, Flows, Outgoing, Incoming, read_all}
use udp_secure_transfer.Demo.Stream.{IsWritten, write_all-IsWritten, read_all-IsRead}
use udp_secure_transfer.Demo.Frame.{DemoFrame, frame_bytes, send_frame, recv_frame}

size_of_header :
    (type size : ℕ) → size < 2 ^ 32 → get_u32 (drop 2 (put_u16 type ++ put_u32 size)) ≡ size
unfolding put_u16 put_u32 get_u32
size_of_header type size h = omega arith

module _ (socket : Socket) (flows : Flows socket) where
  sends_whole :
      (s : Outgoing) (type : ℕ) (payload : List ℕ) (fragment_mode : Bool)
      → length payload ≤ 4096
      → fragment_mode && ltb 0 (length payload) ≡ false
      → IsWritten socket flows s
          (frame_bytes type payload)
          (send_frame socket s type payload fragment_mode)
  sends_whole s type payload fragment_mode h one =
      let buf = frame_bytes type payload in
      let whole = write_all-IsWritten socket flows (length buf) s buf (omega arith) in
      record {
        after = whole.after;
        returns = unfold send_frame in ground (arith, whole.returns);
        sent = whole.sent;
      }

  sends_halves :
      (s : Outgoing) (type : ℕ) (payload : List ℕ) (fragment_mode : Bool)
      → length payload ≤ 4096
      → fragment_mode && ltb 0 (length payload) ≡ true
      → IsWritten socket flows s
          (frame_bytes type payload)
          (send_frame socket s type payload fragment_mode)
  sends_halves s type payload fragment_mode h two =
      let buf = frame_bytes type payload in
      let first = 6 + length payload / 2 in
      let front =
        write_all-IsWritten socket flows (length (take first buf)) s (take first buf)
          (omega arith) in
      let back =
        write_all-IsWritten socket flows (length (drop first buf)) front.after (drop first buf)
          (omega arith) in
      record {
        after = back.after;
        returns = unfold send_frame in ground (arith, front.returns, back.returns);
        sent =
            back.sent
            ∙ ap (λ l. l ++ drop first buf) front.sent
            ∙ append_assoc s.sent (take first buf) (drop first buf)
            ∙ ap (λ l. s.sent ++ l) (take-append-drop first buf);
      }

  pub send_frame-IsWritten :
      (s : Outgoing) (type : ℕ) (payload : List ℕ) (fragment_mode : Bool)
      → length payload ≤ 4096
      → IsWritten socket flows s
          (frame_bytes type payload)
          (send_frame socket s type payload fragment_mode)
  send_frame-IsWritten s type payload fragment_mode h =
      elim (Bool-cases (fragment_mode && ltb 0 (length payload))) [
        | inl two ↦ sends_halves s type payload fragment_mode h two
        | inr one ↦ sends_whole s type payload fragment_mode h one
      ]

  -- A frame at the front of what is pending.
  pub record IsReceived (type : ℕ) (payload later : List ℕ) (result : Option (DemoFrame × Incoming))
      : Type 0 where
    pub after : Incoming
    pub returns :
        result ≡ some (record { type = type; length = length payload; payload = payload }, after)
    pub left : after.pending ≡ later

  frame_arrives :
      (s s1 s2 : Incoming) (header payload : List ℕ)
      → length payload ≤ 4096
      → get_u32 (drop 2 header) ≡ length payload
      → read_all 6 socket s [] 6 ≡ some (s1, header)
      → read_all (length payload) socket s1 [] (length payload) ≡ some (s2, payload)
      → recv_frame socket s
        ≡ some (record { type = get_u16 header; length = length payload; payload = payload }, s2)
  unfolding recv_frame
  frame_arrives s s1 s2 header payload hp size first second = ground arith

  pub recv_frame-IsReceived :
      (calls type : ℕ) (payload later : List ℕ)
      → type < 2 ^ 16
      → length payload ≤ 4096
      → IsReceived type payload later (
          recv_frame socket (record { calls = calls; pending = frame_bytes type payload ++ later }))
  recv_frame-IsReceived calls type payload later ht hp =
      let header : List ℕ = put_u16 type ++ put_u32 (length payload) in
      let six : length header ≡ 6 = unfold put_u16 in unfold put_u32 in refl in
      let h =
        read_all-IsRead socket flows 6 calls header (payload ++ later) [] (omega (arith, six)) in
      let p =
        read_all-IsRead socket flows (length payload) h.after.calls payload later []
          (omega arith) in
      let type_read : get_u16 header ≡ type = get_u16-put_u16 type (put_u32 (length payload)) ht in
      let size_read : get_u32 (drop 2 header) ≡ length payload =
        size_of_header type (length payload) (omega arith) in
      let again : h.after ≡ record { calls = h.after.calls; pending = payload ++ later } =
        ap (λ l. record { calls = h.after.calls; pending = l }) h.left in
      record {
        after = p.after;
        returns =
            ap (λ l. recv_frame socket (record { calls = calls; pending = l }))
              (append_assoc header payload later)
            ∙ frame_arrives (record { calls = calls; pending = header ++ (payload ++ later) })
                h.after p.after header payload hp size_read
                (ap
                    (λ k.
                      read_all 6 socket
                        (record { calls = calls; pending = header ++ (payload ++ later) }) [] k)
                    (sym six)
                  ∙ h.returns)
                (rw again p.returns)
            ∙ ap
                (λ t.
                  some (record { type = t; length = length payload; payload = payload }, p.after))
                type_read;
        left = p.left;
      }

abbrev pub silent : Outgoing
silent = record { calls = 0; sent = [] }

-- On two sockets that keep moving bytes, in pieces of any sizes: a frame with a 16-bit type and at
-- most 4096 bytes is sent, in one write or in two, and what was sent, with anything behind it, is
-- received as the same type and payload, and what is behind it is left to be read.
pub recv_frame-send_frame :
    (outgoing incoming : Socket) (type calls : ℕ) (payload later : List ℕ) (fragment_mode : Bool)
    → Flows outgoing
    → Flows incoming
    → type < 2 ^ 16
    → length payload ≤ 4096
    → (s : Outgoing) × (after : Incoming) × (send_frame outgoing silent type payload fragment_mode
        ≡ some s)
      × (recv_frame incoming (record { calls = calls; pending = s.sent ++ later })
          ≡ some (record { type = type; length = length payload; payload = payload }, after))
      × (after.pending ≡ later)
recv_frame-send_frame outgoing incoming type calls payload later fragment_mode out_flows in_flows ht
      hp =
    let w = send_frame-IsWritten outgoing out_flows silent type payload fragment_mode hp in
    let r = recv_frame-IsReceived incoming in_flows calls type payload later ht hp in
    (w.after, r.after, w.returns, rw w.sent r.returns, r.left)
