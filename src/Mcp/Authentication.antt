-- ===== src/Mcp/Authentication.antt =====
-- `McpHttpAuth` and `authorized_request` of apps/editor/src-tauri/src/mcp.rs, and
-- `McpToken::matches` of mcp_token.rs: how a request's header becomes a lease.
pub mod Tokens
pub mod Sessions
use norves_editor.Common.{
  ℕ, Bool, true, false, not, String, Option, none, some, List, [], ◌∷◌, length, if◌then◌else◌, ◌==◌,
  nat_eq,
}
use Prim.Native.String.{len, slice}
use text.Mathlib.Text.{starts_with}
use norves_editor.Mcp.Permits.{McpRequestLease, McpAuthorization, current_lease, revoke}
use norves_editor.Mcp.Permits

-- The decoding of the base64 crate, `ct_eq` of the subtle crate, and `to_str` of a header's value of
-- the http crate, whose type is `H`.
pub record TokenCode (H : Type 0) : Type 0 where
  pub to_str : H → Option String
  pub decode : String → Option (List ℕ)
  pub ct_eq : List ℕ → List ℕ → Bool

abbrev pub token_size : ℕ
token_size = 32

-- A token is its bytes.
unfoldable pub matches : {H : Type 0} → TokenCode H → List ℕ → String → Bool
matches code token presented = elim (code.decode presented) [
  | none ↦ false
  | some decoded ↦ if not (length decoded == token_size) then false else code.ct_eq token decoded
]

-- `str::strip_prefix`
unfoldable pub strip_prefix : String → String → Option String
strip_prefix text prefix =
    if starts_with text prefix then some (slice text (len prefix) (len text)) else none

-- What stands behind the scheme in the value of a header.
unfoldable pub bearer_of : {H : Type 0} → TokenCode H → H → Option String
unfolding strip_prefix
bearer_of code value = elim (code.to_str value) [
  | none ↦ none
  | some text ↦ strip_prefix text "Bearer "
]

pub record McpHttpAuth (D : Type 0) : Type 0 where
  pub token : Option (List ℕ)
  pub authorization : McpAuthorization D

-- What a new lease reads of its surroundings: which tokens are held, the revision loaded again,
-- and the time.
pub record Moment : Type 0 where
  pub alive : ℕ → Bool
  pub reload : ℕ
  pub now : ℕ

module _ {D : Type 0} where
  abbrev pub with_authorization : List ℕ → McpAuthorization D → McpHttpAuth D
  with_authorization token authorization = record {
    token = some token;
    authorization = authorization;
  }

  unfoldable pub replace : (ℕ → Bool) → List ℕ → McpHttpAuth D → McpHttpAuth D
  replace alive token s = record {
    token = some token;
    authorization = revoke alive s.authorization;
  }

  unfoldable pub disable : (ℕ → Bool) → McpHttpAuth D → McpHttpAuth D
  disable alive s = record { token = none; authorization = revoke alive s.authorization }

  -- `self.authorization.current_lease()`
  abbrev pub lease : Moment → McpHttpAuth D → Option McpRequestLease × McpHttpAuth D
  lease at s =
      let leased = current_lease at.alive at.reload at.now s.authorization in
      (some leased.0, record s { authorization = leased.1 })

  module _ {H : Type 0} (code : TokenCode H) where
    unfoldable pub authorize :
        Moment → String → McpHttpAuth D → Option McpRequestLease × McpHttpAuth D
    unfolding matches
    authorize at presented s =
        let leased = lease at s in
        elim s.token [
          | none ↦ (none, s)
          | some token ↦ if matches code token presented then leased else (none, s)
        ]

    unfoldable pub authorized_request :
        Moment → List H → McpHttpAuth D → Option McpRequestLease × McpHttpAuth D
    unfolding bearer_of authorize
    authorized_request at [] s = (none, s)
    authorized_request at (value ∷ other ∷ values) s = (none, s)
    authorized_request at (value ∷ []) s =
        let asked = bearer_of code value in
        elim asked [ none ↦ (none, s) | some presented ↦ authorize at presented s ]

pub data Event (H : Type 0) : Type 0 where
  replaces : (alive : ℕ → Bool) → (token : List ℕ) → Event H
  disables : (alive : ℕ → Bool) → Event H
  requests : Moment → List H → Event H
  changes_authorization : Permits.Event → Event H

module _ {D H : Type 0} (code : TokenCode H) where
  unfoldable pub happen : McpHttpAuth D → Event H → McpHttpAuth D
  unfolding replace disable authorized_request
  happen s (Event.replaces alive token) = replace alive token s
  happen s (Event.disables alive) = disable alive s
  happen s (Event.requests at headers) = (authorized_request code at headers s).1
  happen s (Event.changes_authorization e) = record s {
    authorization = Permits.happen s.authorization e;
  }

  unfoldable pub run : McpHttpAuth D → List (Event H) → McpHttpAuth D
  unfolding happen
  run s [] = s
  run s (e ∷ es) = run (happen s e) es
