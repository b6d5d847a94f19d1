-- ===== src/Mcp/Authentication/Tokens.antt =====
-- Which requests get a lease.
use norves_editor.Common.{
  ℕ, ◌≡◌, ◌∙◌, ◌↔◌, inl, inr, refl, sym, ap, subst, Bool, true, false, String, Option, none, some,
  List, [], ◌∷◌, arith, length, nat_eq, Bool-cases, Option-cases,
}
use norves_editor.Mcp.Permits.{McpRequestLease}
use norves_editor.Mcp.Authentication.{
  TokenCode, token_size, matches, bearer_of, McpHttpAuth, Moment, authorize, authorized_request,
}

abbrev pub is_granted : Option McpRequestLease → Bool
is_granted none = false
is_granted (some l) = true

-- The header presents the current token.
abbrev pub Presents : {H : Type 0} → TokenCode H → List H → Option (List ℕ) → Type 0
Presents {H} code headers token =
    (value : H) × (presented : String) × (bytes : List ℕ) × (headers ≡ value ∷ [])
    × (bearer_of code value ≡ some presented)
    × (token ≡ some bytes)
    × (code.decode presented ≡ some bytes)

only_value : {H : Type 0} {v w : H} → v ∷ [] ≡ w ∷ [] → v ≡ w
only_value h = ground arith

some_injective : {a b : List ℕ} → some a ≡ some b → a ≡ b
some_injective h = ground arith

-- A stored token is of its full size.
abbrev pub IsFull : Option (List ℕ) → Type 0
IsFull none = Unit
IsFull (some bytes) = length bytes ≡ token_size

module _ {H : Type 0} (code : TokenCode H)
    (ct_eq_iff : (a b : List ℕ) → (code.ct_eq a b ≡ true) ↔ (a ≡ b)) where
  matches_iff_decode :
      (token : List ℕ) (presented : String)
      → length token ≡ token_size
      → (matches code token presented ≡ true) ↔ (code.decode presented ≡ some token)
  unfolding matches
  matches_iff_decode token presented full = elim (Option-cases (code.decode presented)) [
    | inl bad ↦ ground arith
    | inr (decoded, good) ↦ (
      λ h. good ∙ ap some (sym ((ct_eq_iff token decoded).0 (ground arith))),
      λ same. full_size decoded (sym (some_injective (sym good ∙ same))) good,
    )
  ]
    where
      full_size :
          (decoded : List ℕ)
          → token ≡ decoded
          → code.decode presented ≡ some decoded
          → matches code token presented ≡ true
      full_size decoded same good =
          ground (arith, (ct_eq_iff token decoded).1 same, ap length same, full)

  module _ {D : Type 0} (at : Moment) (s : McpHttpAuth D) where
    authorize_with :
        (presented : String) (token : List ℕ)
        → s.token ≡ some token
        → is_granted (authorize code at presented s).0 ≡ matches code token presented
    unfolding authorize
    authorize_with presented token there = elim (Bool-cases (matches code token presented)) [
      | inl good ↦ ground arith
      | inr bad ↦ ground arith
    ]

    authorize_without :
        (presented : String) → s.token ≡ none → is_granted (authorize code at presented s).0 ≡ false
    unfolding authorize
    authorize_without presented absent = ground arith

    authorize_iff :
        (presented : String)
        → IsFull s.token
        → (is_granted (authorize code at presented s).0 ≡ true)
          ↔ ((bytes : List ℕ) × (s.token ≡ some bytes) × (code.decode presented ≡ some bytes))
    authorize_iff presented full = elim (Option-cases s.token) [
      | inl absent ↦ (
        λ h. ground (arith, authorize_without presented absent),
        λ (bytes, there, same). ground arith,
      )
      | inr (token, there) ↦
          let size : length token ≡ token_size = subst IsFull there full in
          let with_ = authorize_with presented token there in
          (
            λ h. (token, there, (matches_iff_decode token presented size).0 (sym with_ ∙ h)),
            λ (bytes, there', same).
                with_
                ∙ (matches_iff_decode token presented size).1
                    (same ∙ ap some (some_injective (sym there' ∙ there))),
          )
    ]

    -- A request is given a lease exactly where its headers for the authorization are one, that one
    -- has the prefix of the scheme, and the rest of it decodes to the stored token. The stored
    -- token, if there is one, has its 32 bytes, and the comparison of constant time is equality of
    -- bytes.
    pub authorized_request_iff :
        (headers : List H)
        → IsFull s.token
        → (is_granted (authorized_request code at headers s).0 ≡ true)
          ↔ Presents code headers s.token
    unfolding authorized_request
    authorized_request_iff [] full = (λ h. ground arith, λ (v, p, b, e, q, t, d). ground arith)
    authorized_request_iff (v ∷ w ∷ vs) full =
        (λ h. ground arith, λ (x, p, b, e, q, t, d). ground arith)
    authorized_request_iff (value ∷ []) full = elim (Option-cases (bearer_of code value)) [
      | inl other ↦ (
        λ h. cc (rw (other, authorized_request) at h),
        λ (v, p, b, e, q, t, d). cc (other, q, ap (bearer_of code) (only_value e)),
      )
      | inr (presented, bears) ↦ (
        λ h.
            let (bytes, there, same) =
              (authorize_iff presented full).0 (rw (bears, authorized_request) at h) in
            (value, presented, bytes, refl, bears, there, same),
        λ (v, p, bytes, e, q, there, same).
            rw (bears, authorized_request)
              ((authorize_iff presented full).1 (
                bytes,
                there,
                subst (λ q. code.decode q ≡ some bytes)
                    (ground (arith, bears, q, ap (bearer_of code) (only_value e))) same,
              )),
      )
    ]
