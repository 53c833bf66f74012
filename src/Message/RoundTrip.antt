-- ===== src/Message/RoundTrip.antt =====
-- `parse_internal` of src/message.rs, on what `serialize_internal` writes and on any input.
use article.Base.{
  ℕ, ◌-◌, ◌+◌, ◌^◌, ◌≤◌, ◌≡◌, refl, sym, subst, false, [], ◌∷◌, ◌++◌, ◌==◌, arith, ltb, not,
  Bool-cases, inl, inr, ge→ltb, ◌||◌, length, drop, length-append, append-nil,
}
use article.Base.Bytes.{Bytes, AllBytes, IsArray, be_bytes, length-be_bytes}
use article.Error.{ok, ok_injective}
use article.Exec.{exec_step, exec_ok, exec_refuse, exec_gets, refuse_if_step}
use article.Primitives.{Primitives}
use article.Protocol.{max_body_len, internal_fixed_len, signature_len, usize_max}
use article.Format.Reader
use article.Format.Reader.{
  Reader, IsAt, IsAt-new, advance-IsAt_exact, array_lem, take_exact, byte_lem, u32_be_lem,
  remaining_lem, advance, byte_sound, array_sound, take_sound, u32_be_sound, All-drop,
  All-append_left,
}
use article.Identity.{PublicProfile, new}
use article.Identity.Profile.{IsProfile, new-IsProfile}
use article.Message.{ParsedMessage, inner_bytes}
use article.Message.Parse.{parse_internal, read_fields}

pub length-inner_bytes :
    (sender : PublicProfile) (recipient message_id body signature padding : Bytes)
    → length sender.identity_public ≡ 32
    → length sender.agreement_public ≡ 32
    → length recipient ≡ 32
    → length message_id ≡ 32
    → length signature ≡ 64
    → length (inner_bytes sender recipient message_id body signature padding)
      ≡ internal_fixed_len + length body + length padding
length-inner_bytes sender recipient message_id body signature padding a b c d e =
    let t1 = signature ++ padding in
    let t2 = body ++ t1 in
    let t3 = be_bytes 4 (length body) ++ t2 in
    let t4 = message_id ++ t3 in
    let t5 = recipient ++ t4 in
    let t6 = sender.agreement_public ++ t5 in
    omega (
      arith,
      length-append sender.identity_public t6,
      length-append sender.agreement_public t5,
      length-append recipient t4,
      length-append message_id t3,
      length-append (be_bytes 4 (length body)) t2,
      length-be_bytes 4 (length body),
      length-append body t1,
      length-append signature padding,
    )

room_test :
    (n room : ℕ)
    → n ≤ max_body_len
    → n + signature_len ≤ room
    → (ltb max_body_len n || ltb (room - signature_len) n) ≡ false
room_test n room h k = ground arith

module _ (p : Primitives) (identity agreement recipient message_id body signature padding : Bytes)
    (id_size : length identity ≡ 32) (ag_size : length agreement ≡ 32)
    (re_size : length recipient ≡ 32) (me_size : length message_id ≡ 32)
    (si_size : length signature ≡ 64) (within : length body ≤ max_body_len) where
  abbrev parsed : ParsedMessage
  parsed = record {
    sender = new p identity agreement;
    recipient_fingerprint = recipient;
    message_id = message_id;
    body = body;
    signature = signature;
  }

  abbrev plaintext : Bytes
  plaintext = inner_bytes (new p identity agreement) recipient message_id body signature padding

  read_fields_lem : (r0 : Reader) → IsAt r0 plaintext → (read_fields p r0).0 ≡ ok parsed
  unfolding read_fields new
  read_fields_lem r0 h0 =
      let h1 = advance-IsAt_exact 1 r0 (1 ∷ []) _ refl h0 in
      let r1 = advance 1 r0 in
      let h2 = advance-IsAt_exact 1 r1 (1 ∷ []) _ refl h1 in
      let r2 = advance 1 r1 in
      let h3 = advance-IsAt_exact 32 r2 identity _ id_size h2 in
      let r3 = advance 32 r2 in
      let h4 = advance-IsAt_exact 32 r3 agreement _ ag_size h3 in
      let r4 = advance 32 r3 in
      let h5 = advance-IsAt_exact 32 r4 recipient _ re_size h4 in
      let r5 = advance 32 r4 in
      let h6 = advance-IsAt_exact 32 r5 message_id _ me_size h5 in
      let r6 = advance 32 r5 in
      let h7 =
        advance-IsAt_exact 4 r6 (be_bytes 4 (length body)) _ (length-be_bytes 4 (length body)) h6 in
      let r7 = advance 4 r6 in
      let h8 = advance-IsAt_exact (length body) r7 body _ refl h7 in
      let r8 = advance (length body) r7 in
      let h9 = advance-IsAt_exact 64 r8 signature padding si_size h8 in
      let r9 = advance 64 r8 in
      let room = remaining_lem r7 (body ++ (signature ++ padding)) h7 in
      let left = remaining_lem r9 padding h9 in
      let fits : (ltb max_body_len (length body)
            || ltb (Reader.remaining r7 - signature_len) (length body))
          ≡ false =
        room_test (length body) (Reader.remaining r7) within (
          omega (
            arith,
            room,
            length-append body (signature ++ padding),
            length-append signature padding,
            si_size,
          )) in
      let h9' : IsAt r9 (padding ++ []) = subst (IsAt r9) (sym (append-nil padding)) h9 in
      exec_step _ _ r0 1 r1 (byte_lem r0 1 _ h0) (
        exec_step _ _ r1 tt r1 refl (
          exec_step _ _ r1 1 r2 (byte_lem r1 1 _ h1) (
            exec_step _ _ r2 tt r2 refl (
              exec_step _ _ r2 identity r3 (array_lem 32 r2 identity _ id_size h2) (
                exec_step _ _ r3 agreement r4 (array_lem 32 r3 agreement _ ag_size h3) (
                  exec_step _ _ r4 recipient r5 (array_lem 32 r4 recipient _ re_size h4) (
                    exec_step _ _ r5 message_id r6 (array_lem 32 r5 message_id _ me_size h5) (
                      exec_step _ _ r6 (length body) r7
                        (u32_be_lem r6 (length body) _ (omega arith) h6)
                        (exec_step _ _ r7 (Reader.remaining r7) r7 refl (
                          exec_step _ _ r7 tt r7 (refuse_if_step _ _ r7 fits) (
                            exec_step _ _ r7 body r8 (take_exact (length body) r7 body _ refl h7) (
                              exec_step _ _ r8 signature r9
                                (array_lem 64 r8 signature padding si_size h8)
                                (exec_step _ _ r9 (Reader.remaining r9) r9 refl (
                                  exec_step _ _ r9 padding _
                                    (take_exact (Reader.remaining r9) r9 padding [] (sym left) h9')
                                    refl))))))))))))))

  plaintext_length : length plaintext ≡ internal_fixed_len + length body + length padding
  unfolding new
  plaintext_length =
      length-inner_bytes (new p identity agreement) recipient message_id body signature padding
        id_size ag_size re_size me_size si_size

  -- The record that is written for keys, fingerprint, message id and signature of their sizes, a
  -- body within the limit and padding of at most 2 ^ 32 bytes is parsed to them.
  pub parse_internal-inner_bytes : length padding ≤ 2 ^ 32 → parse_internal p plaintext ≡ ok parsed
  unfolding parse_internal
  parse_internal-inner_bytes h =
      let long : ltb (length plaintext) internal_fixed_len ≡ false =
        ge→ltb (length plaintext) internal_fixed_len (omega (arith, plaintext_length)) in
      rw long (
        read_fields_lem (Reader.new plaintext)
          (IsAt-new plaintext (omega (arith, plaintext_length))))

-- What a parse of `bytes` to `message` tells.
abbrev Parsed : Primitives → Bytes → ParsedMessage → Type 0
Parsed p bytes message =
    (padding : Bytes) × (bytes
      ≡ inner_bytes message.sender message.recipient_fingerprint message.message_id message.body
          message.signature padding)
    × (length message.body ≤ max_body_len)
    × (length message.recipient_fingerprint ≡ 32)
    × (length message.message_id ≡ 32)
    × (length message.signature ≡ 64)
    × IsProfile p message.sender

version_ok : (v : ℕ) → not (v == 1) ≡ false → v ≡ 1
version_ok v h = ground arith

length_ok :
    (n room : ℕ) → (ltb max_body_len n || ltb (room - signature_len) n) ≡ false → n ≤ max_body_len
length_ok n room h = ground arith

assemble :
    (p : Primitives) (bytes : Bytes) (v s : ℕ) (id ag re me body si : Bytes) (n : ℕ)
    (u1 u2 u3 u4 u5 u6 u7 u8 u9 : Bytes)
    → v ≡ 1
    → s ≡ 1
    → n ≡ length body
    → (bytes ≡ v ∷ u1)
      × (u1 ≡ s ∷ u2)
      × (u2 ≡ id ++ u3)
      × (u3 ≡ ag ++ u4)
      × (u4 ≡ re ++ u5)
      × (u5 ≡ me ++ u6)
      × (u6 ≡ be_bytes 4 n ++ u7)
      × (u7 ≡ body ++ u8)
      × (u8 ≡ si ++ u9)
    → bytes ≡ inner_bytes (new p id ag) re me body si u9
unfolding new
assemble p bytes v s id ag re me body si n u1 u2 u3 u4 u5 u6 u7 u8 u9 h1 h2 h3
      (c1, c2, c3, c4, c5, c6, c7, c8, c9) =
    cc

fields_sound :
    (p : Primitives) (bytes : Bytes) (message : ParsedMessage)
    → AllBytes bytes
    → length bytes ≤ usize_max
    → (read_fields p (Reader.new bytes)).0 ≡ ok message
    → Parsed p bytes message
unfolding read_fields
fields_sound p bytes message all size e =
    let r0 = Reader.new bytes in
    let h0 = IsAt-new bytes size in
    exec_ok Reader.byte _ r0 e λ v r1 e1 k1. exec_refuse _ _ _ r1 k1 λ t1 k2.
      exec_ok Reader.byte _ r1 k2 λ s r2 e2 k3. exec_refuse _ _ _ r2 k3 λ t2 k4.
        exec_ok (Reader.array 32) _ r2 k4 λ id r3 e3 k5.
          exec_ok (Reader.array 32) _ r3 k5 λ ag r4 e4 k6.
            exec_ok (Reader.array 32) _ r4 k6 λ re r5 e5 k7.
              exec_ok (Reader.array 32) _ r5 k7 λ me r6 e6 k8.
                exec_ok Reader.u32_be _ r6 k8 λ n r7 e7 k9.
                  exec_refuse _ _ _ r7 (exec_gets _ _ r7 k9) λ t3 k10.
                    exec_ok (Reader.take n) _ r7 k10 λ body r8 e8 k11.
                      exec_ok (Reader.array 64) _ r8 k11 λ si r9 e9 k12.
                        exec_ok (Reader.take _) _ r9 (exec_gets _ _ r9 k12) λ padding r10 _ done.
                          let (c1, h1) = byte_sound r0 r1 bytes v h0 e1 in
                          let u1 = drop 1 bytes in
                          let (c2, h2) = byte_sound r1 r2 u1 s h1 e2 in
                          let u2 = drop 1 u1 in
                          let (s3, c3, h3) = array_sound 32 r2 r3 u2 id h2 e3 in
                          let u3 = drop 32 u2 in
                          let (s4, c4, h4) = array_sound 32 r3 r4 u3 ag h3 e4 in
                          let u4 = drop 32 u3 in
                          let (s5, c5, h5) = array_sound 32 r4 r5 u4 re h4 e5 in
                          let u5 = drop 32 u4 in
                          let (s6, c6, h6) = array_sound 32 r5 r6 u5 me h5 e6 in
                          let u6 = drop 32 u5 in
                          let all6 = All-drop 32 u5 (
                            All-drop 32 u4 (
                              All-drop 32 u3
                                (All-drop 32 u2 (All-drop 1 u1 (All-drop 1 bytes all))))) in
                          let (c7, h7) = u32_be_sound r6 r7 u6 n all6 h6 e7 in
                          let u7 = drop 4 u6 in
                          let (s8, c8, h8) = take_sound n r7 r8 u7 body h7 e8 in
                          let u8 = drop n u7 in
                          let (s9, c9, h9) = array_sound 64 r8 r9 u8 si h8 e9 in
                          let u9 = drop 64 u8 in
                          let whole : bytes ≡ inner_bytes (new p id ag) re me body si u9 =
                            assemble p bytes v s id ag re me body si n u1 u2 u3 u4 u5 u6 u7 u8 u9
                              (version_ok v t1) (version_ok s t2) (sym s8)
                              (c1, c2, c3, c4, c5, c6, c7, c8, c9) in
                          let all2 = All-drop 1 u1 (All-drop 1 bytes all) in
                          let all3 = All-drop 32 u2 all2 in
                          let id_array : IsArray 32 id = record {
                            size = s3;
                            all_bytes = All-append_left id u3 (subst AllBytes c3 all2);
                          } in
                          let ag_array : IsArray 32 ag = record {
                            size = s4;
                            all_bytes = All-append_left ag u4 (subst AllBytes c4 all3);
                          } in
                          subst (Parsed p bytes) (ok_injective _ _ done) (
                            u9,
                            whole,
                            rw s8 (length_ok n (Reader.remaining r7) t3),
                            s5,
                            s6,
                            s9,
                            new-IsProfile p id ag id_array ag_array,
                          )

-- A successful parse of bytes that fit in memory determined every byte of its input: version, suite, the sender's keys, the
-- recipient's fingerprint, the message id, the body's length and the body, the signature and, at
-- the end, some padding.
pub parse_internal_sound :
    (p : Primitives) (bytes : Bytes) (message : ParsedMessage)
    → AllBytes bytes
    → length bytes ≤ usize_max
    → parse_internal p bytes ≡ ok message
    → (padding : Bytes) × (bytes
        ≡ inner_bytes message.sender message.recipient_fingerprint message.message_id message.body
            message.signature padding)
      × (length message.body ≤ max_body_len)
      × (length message.recipient_fingerprint ≡ 32)
      × (length message.message_id ≡ 32)
      × (length message.signature ≡ 64)
      × IsProfile p message.sender
unfolding parse_internal
parse_internal_sound p bytes message all size e =
    elim (Bool-cases (ltb (length bytes) internal_fixed_len)) [
      | inl short ↦ absurd (cc (rw short at e))
      | inr long ↦ fields_sound p bytes message all size (rw long at e)
    ]
