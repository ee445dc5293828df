-- ===== src/Speech/Signatures.antt =====
-- How requests to Tencent Cloud are signed in two places: sms.go and tencent.go.
use crew_im.Prelude.{ℕ, String, ◌≡◌, refl, sym, ap, ◌∙◌, ◌<>◌, decimal}
use text.Mathlib.TextLemmas.{append_assoc as text_assoc}
use crew_im.Tencent.{Signing, TencentCloudSender, sign_v3, canonical_request, signature}
use crew_im.Speech.{TencentAsr, authorization, credential_scope}

credential_scope-append :
    (date service rest : String)
    → credential_scope date service <> rest ≡ date <> "/" <> service <> "/tc3_request" <> rest
unfolding credential_scope
credential_scope-append date service rest =
    text_assoc date ("/" <> service <> "/tc3_request") rest
    ∙ ap (λ s. date <> s)
        (text_assoc "/" (service <> "/tc3_request") rest
          ∙ ap (λ s. "/" <> s) (text_assoc service "/tc3_request" rest))

-- The two implementations of the signature agree: with the same keys, host, service and payload at the
-- same time, the sender of messages and the transcriber send the same authorization.
pub sign_v3-authorization :
    (g : Signing) (t : TencentCloudSender) (a : TencentAsr) (host service : String) (timestamp : ℕ)
    (payload : String)
    → t.secret_id ≡ a.secret_id
    → t.secret_key ≡ a.secret_key
    → sign_v3 g t host service timestamp payload ≡ authorization g a host service timestamp payload
unfolding sign_v3 authorization credential_scope
sign_v3-authorization g t a host service timestamp payload same_id same_key =
    let date = g.date timestamp in
    let hash = g.sha256_hex (canonical_request g host payload) in
    let scope = credential_scope-append date service in
    let line =
      scope ("\n" <> hash)
      ∙ ap (λ s. date <> "/" <> service <> s) (sym (text_assoc "/tc3_request" "\n" hash)) in
    let to_sign =
      "TC3-HMAC-SHA256\n"
      <> decimal timestamp
      <> "\n"
      <> credential_scope date service
      <> "\n"
      <> hash in
    let sign =
      ", SignedHeaders=content-type;host, Signature="
      <> signature g a.secret_key date service to_sign in
    let credential =
      scope sign
      ∙ ap (λ s. date <> "/" <> service <> s)
          (sym (
            text_assoc "/tc3_request" ", SignedHeaders=content-type;host, Signature="
              (signature g a.secret_key date service to_sign))) in
    rw (same_id, same_key) (sym (rw credential (rw line refl)))
