-- ===== src/Gateway/Parity/Uploads.antt =====
-- Signing uploads over the upload service.
use meme_launchpad_backend.Common.{
  ℕ, zero, suc, ◌<◌, ◌^◌, ◌-◌, ◌≡◌, refl, String, true, false, ◌||◌, some, ltb, ◌==◌, string_eq,
  Bool-cases, inl, inr, arith, if◌then◌else◌,
}
use meme_launchpad_backend.Fallible.{error_text, msg, wrap, Result, ok, err, Result-cases}
use meme_launchpad_backend.Go.Strconv.{ℤ, pos}
use meme_launchpad_backend.Go.Strings.{◌<>◌}
use meme_launchpad_backend.Upload.{PresignResult}
use meme_launchpad_backend.Gateway.{Claims, Authenticator}
use meme_launchpad_backend.Gateway.Messages.{
  message, year_10000, ImageKind, check_valid, unix_timestamp,
}
use meme_launchpad_backend.Gateway.Messages.RoundTrip.{to_int32-same}
use meme_launchpad_backend.Gateway.Server
use meme_launchpad_backend.Gateway.Server.Files
use meme_launchpad_backend.Gateway.Server.Files.{image_folder}
use meme_launchpad_backend.Gateway.Client
use meme_launchpad_backend.Gateway.Client.{image_kind, expiry}
use meme_launchpad_backend.Gateway.Http.{
  Request, bearer_claims, query_number, presign_image, upload_confirm,
}
use meme_launchpad_backend.Gateway.Parity.{outcome, local_presigner, remote_presigner}
use meme_launchpad_backend.Gateway.Parity.Tokens.{query_number-pos}
use meme_launchpad_backend.Gateway.Parity.Writes.{
  bearer_claims-passed, bearer_claims-admitted, bearer_claims-full, Admission-cases,
}

expiry-timestamp : (t : ℕ) → t < year_10000 → expiry (some (unix_timestamp t)) ≡ ok t
unfolding expiry check_valid
expiry-timestamp t h = rw (before t year_10000 h) refl
  where
    before : (m n : ℕ) → m < n → ltb m n ≡ true
    before m n h = ground arith

within : (n : ℕ) → 0 < n → n < 2 ^ 31 → (ltb n 1 || ltb (2 ^ 31 - 1) n) ≡ false
within n h low = ground arith

or_default-pos : (n : ℕ) → 0 < n → Server.or_default 97 (some (pos n)) ≡ some n
or_default-pos zero h = absurd (omega arith)
or_default-pos (suc n) h = refl

-- what the adapter makes of the service's answer
abbrev presigned_over : Result PresignResult → Result PresignResult
presigned_over (ok p) = ok p
presigned_over (err e) = err (
    wrap "presign upload over internal gRPC"
      (msg ("rpc error: code = InvalidArgument desc = " <> error_text e)))

abbrev confirmed_over : Result (Unit {0}) → Result (Unit {0})
confirmed_over (ok _) = ok tt
confirmed_over (err _) = err (
    wrap "confirm upload over internal gRPC"
      (msg "rpc error: code = Internal desc = failed to confirm upload"))

given : (m : String) → (m == "") ≡ false → (if m == "" then "image/png" else m) ≡ m
given m h = rw h refl

-- a MIME type is given or has its default
typed_by : (m : String) → ((if m == "" then "image/png" else m) == "") ≡ false
typed_by m = elim (Bool-cases (m == "")) [ inl bare ↦ rw bare refl | inr full ↦ rw full full ]

module _ {S : Type 0} (auth : Authenticator S)
    (presign : String → String → ℤ → S → Result PresignResult × S)
    (confirm : S → Result (Unit {0}) × S) where
  -- the times at which the signed addresses end lie before the year 10000
  abbrev pub ExpireInTime : Type 0
  ExpireInTime =
      (folder mime_type : String) (chain_id : ℤ) (s : S) (p : PresignResult)
      → (presign folder mime_type chain_id s).0 ≡ ok p
      → p.expires < year_10000

  presign-remote :
      ExpireInTime
      → (token : String) (claims : Claims) (folder : String) (kind : ImageKind) (mime_type : String)
        (n : ℕ) (s : S)
      → (token == "") ≡ false
      → auth.parse_token token ≡ ok claims
      → image_kind folder ≡ ok kind
      → image_folder kind ≡ message folder
      → (mime_type == "") ≡ false
      → 0 < n
      → n < 2 ^ 31
      → (remote_presigner auth.parse_token presign confirm).presign
          (some token)
          folder
          mime_type
          (pos n)
          s
        ≡ (
          presigned_over (presign folder mime_type (pos n) s).0,
          (presign folder mime_type (pos n) s).1,
        )
  unfolding Client.presign Client.presign_kind Client.call Files.presign_image Files.presign_in
  presign-remote timely token claims folder kind mime_type n s full parsed there back typed h low =
      let passed = bearer_claims-passed auth.parse_token token claims full parsed in
      rw (full, Client.presign)
        (rw there (
          rw (within n h low) (
            rw (to_int32-same (pos n) low) (
              rw (passed, Files.presign_image)
                (rw back (
                  rw (or_default-pos n h, Files.presign_in)
                    (rw (given mime_type typed)
                      (elim (Result-cases (presign folder mime_type (pos n) s).0) [
                        | inr (e, bad) ↦ rw bad (rw (given mime_type typed) refl)
                        | inl (p, good) ↦ rw good (
                            rw
                              (expiry-timestamp p.expires
                                (timely folder mime_type (pos n) s p good))
                              (rw (given mime_type typed) refl))
                      ]))))))))

  confirm-remote :
      (token : String) (claims : Claims) (s : S)
      → (token == "") ≡ false
      → auth.parse_token token ≡ ok claims
      → (remote_presigner auth.parse_token presign confirm).confirm (some token) s
        ≡ (confirmed_over (confirm s).0, (confirm s).1)
  unfolding Client.confirm Client.call Files.confirm_upload
  confirm-remote token claims s full parsed =
      let passed = bearer_claims-passed auth.parse_token token claims full parsed in
      rw (full, Client.confirm)
        (rw (passed, Files.confirm_upload)
          (elim (Result-cases (confirm s).0) [
            | inr (e, bad) ↦ rw bad refl
            | inl (done, good) ↦ rw good refl
          ]))

  pub upload_confirm-remote :
      (r : Request) (s : S)
      → let local = upload_confirm auth (local_presigner presign confirm) r s in
        let remote = upload_confirm auth (remote_presigner auth.parse_token presign confirm) r s in
        (outcome remote.0 ≡ outcome local.0) × (remote.1 ≡ local.1)
  unfolding upload_confirm
  upload_confirm-remote r s = elim (Bool-cases (r.method == "POST")) [
    | inr other ↦ rw other (refl, refl)
    | inl post ↦ elim (Admission-cases auth (bearer_claims auth r)) [
      | inl (reply, out) ↦ rw post (rw out (refl, refl))
      | inr (token, claims, known) ↦
          let full = bearer_claims-full auth r token claims known in
          let parsed = (bearer_claims-admitted auth r token claims known).1 in
          let over = confirm-remote token claims s full parsed in
          elim (Result-cases (confirm s).0) [
            | inr (e, bad) ↦ rw post (rw known (rw over (rw bad (refl, refl))))
            | inl (done, good) ↦ rw post (rw known (rw over (rw good (refl, refl))))
          ]
    ]
  ]

  pub presign_image-remote :
      ExpireInTime
      → (folder : String) (kind : ImageKind) (r : Request) (s : S) → image_kind folder ≡ ok kind
      → image_folder kind ≡ message folder
      → ((n : ℕ)
          → query_number 97 (msg "chainId must be positive") (r.query "chainId") ≡ ok n
          → n < 2 ^ 31)
      → let local = presign_image auth (local_presigner presign confirm) folder r s in
        let remote =
          presign_image auth (remote_presigner auth.parse_token presign confirm) folder r s in
        (outcome remote.0 ≡ outcome local.0) × (remote.1 ≡ local.1)
  unfolding presign_image
  presign_image-remote timely folder kind r s there back low =
      elim (Bool-cases (r.method == "GET")) [
        | inr other ↦ rw other (refl, refl)
        | inl get ↦ elim (Admission-cases auth (bearer_claims auth r)) [
          | inl (reply, out) ↦ rw get (rw out (refl, refl))
          | inr (token, claims, known) ↦
              elim (Result-cases
                (query_number 97 (msg "chainId must be positive") (r.query "chainId"))) [
                  | inr (e, bad) ↦ rw get (rw known (rw bad (refl, refl)))
                  | inl (n, read) ↦
                      let mime_type =
                        if r.query "mimeType" == "" then "image/png" else r.query "mimeType" in
                      let typed : (mime_type == "") ≡ false = typed_by (r.query "mimeType") in
                      let h =
                        query_number-pos 97 (msg "chainId must be positive") (r.query "chainId") n
                          (omega arith) read in
                      let over =
                        presign-remote timely token claims folder kind mime_type n s
                          (bearer_claims-full auth r token claims known)
                          (bearer_claims-admitted auth r token claims known).1 there back typed h
                          (low n read) in
                      elim (Result-cases (presign folder mime_type (pos n) s).0) [
                        | inr (e, bad) ↦ rw get (rw known (rw read (rw over (rw bad (refl, refl)))))
                        | inl (p, good) ↦
                            rw get (rw known (rw read (rw over (rw good (refl, refl)))))
                      ]
                ]
        ]
      ]
