-- ===== src/Message/Sealing.antt =====
-- What `seal` of src/message.rs returns.
use mathlib.Core.Option.{some-injective}
use article.Base.{ℕ, ◌≤◌, ◌≡◌, sym, ap, ◌∙◌, subst, true, false, some, arith, ltb, length, ==_iff}
use article.Base.Bytes.{Bytes}
use article.Error.{ok, ok_or-eq-ok, ok_injective, not-false}
use article.Exec.{lift, exec_ok, exec_refuse}
use article.Primitives.{Primitives}
use article.Entropy.{random_array}
use article.Protocol.{max_body_len, nonce_len, padded_blob_len, valid_blob_len}
use article.Protocol.Buckets.{padded_blob_len-least}
use article.Identity.{PublicProfile, IdentitySecrets}
use article.Message.Seal.{seal, encrypt_outer, random_bytes}

small_enough : (n : ℕ) → ltb max_body_len n ≡ false → n ≤ max_body_len
small_enough n h = ground arith

module _ (p : Primitives) where
  length-encrypt_outer :
      (secret public : Bytes) (recipient : PublicProfile) (nonce internal : Bytes) (n calls : ℕ)
      (blob : Bytes)
      → (encrypt_outer p secret public recipient nonce internal n calls).0 ≡ ok blob
      → length blob ≡ n
  unfolding encrypt_outer
  length-encrypt_outer secret public recipient nonce internal n calls blob e =
      exec_ok (lift _) _ calls e λ key c1 _ e1. exec_refuse _ _ _ c1 e1 λ _ e2.
        exec_ok (lift _) _ c1 e2 λ ciphertext c2 _ e3. exec_refuse _ _ _ c2 e3 λ test e4.
          subst (λ b. length b ≡ n) (ok_injective _ blob e4) ((==_iff _ n).0 (not-false _ test))

  -- Whatever `seal` returns, for any keys, primitives and entropy, has exactly the padded size of
  -- its body, which is a size that `open` accepts.
  pub seal-IsPadded :
      (sender_secrets : IdentitySecrets) (sender recipient : PublicProfile) (body : Bytes)
      (calls : ℕ) (blob : Bytes)
      → (seal p sender_secrets sender recipient body calls).0 ≡ ok blob
      → (padded_blob_len (length body) ≡ some (length blob)) × (valid_blob_len (length blob) ≡ true)
  unfolding seal
  seal-IsPadded secrets sender recipient body calls blob e = exec_refuse _ _ _ calls e λ small e0.
      exec_ok (random_array p 32) _ calls e0 λ secret c1 _ e1.
        exec_ok (random_array p nonce_len) _ c1 e1 λ nonce c2 _ e2.
          exec_ok (random_array p 32) _ c2 e2 λ message_id c3 _ e3.
            exec_ok (lift _) _ c3 e3 λ n c4 found e4.
              exec_ok (random_bytes p _) _ c4 e4 λ padding c5 _ e5.
                exec_ok (lift _) _ c5 e5 λ internal c6 _ e6. exec_refuse _ _ _ c6 e6 λ _ e7.
                  let size = length-encrypt_outer _ _ _ _ internal n c6 blob e7 in
                  let bucket = ok_or-eq-ok _ _ (ap (λ r. r.0) found) in
                  let (least, chosen, valid, _, _) =
                    padded_blob_len-least (length body) (small_enough (length body) small) in
                  let same : least ≡ length blob =
                    some-injective _ _ (sym chosen ∙ bucket) ∙ sym size in
                  (bucket ∙ ap some (sym size), subst (λ n. valid_blob_len n ≡ true) same valid)
