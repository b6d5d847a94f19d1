-- ===== src/Tests/Authentication.antt =====
-- The theorems on the authentication of requests on small inputs.
use norves_editor.Common.{
  ℕ, zero, suc, ◌≡◌, ◌↔◌, refl, Bool, true, false, ◌&&◌, String, some, List, [], ◌∷◌, arith, nat_eq,
  nat_beq, nat_beq_iff, string_eq, option_eq,
}
use norves_editor.Mcp.Permits.{is_current, current_lease}
use norves_editor.Mcp.Authentication.{
  TokenCode, McpHttpAuth, Moment, with_authorization, authorized_request, Event, run,
}
use norves_editor.Mcp.Authentication.Tokens.{is_granted, Presents, authorized_request_iff}
use norves_editor.Mcp.Authentication.Sessions.{withdrawals, lease_expires}
use norves_editor.Tests.Permits.{held, fresh, first_lease}

abbrev bytes_beq : List ℕ → List ℕ → Bool
bytes_beq [] [] = true
bytes_beq [] (b ∷ bs) = false
bytes_beq (a ∷ as_) [] = false
bytes_beq (a ∷ as_) (b ∷ bs) = nat_beq a b && bytes_beq as_ bs

bytes_beq_iff : (a b : List ℕ) → (bytes_beq a b ≡ true) ↔ (a ≡ b)
bytes_beq_iff [] [] = ground arith
bytes_beq_iff [] (b ∷ bs) = ground arith
bytes_beq_iff (a ∷ as_) [] = ground arith
bytes_beq_iff (a ∷ as_) (b ∷ bs) = ground (arith, nat_beq_iff a b, bytes_beq_iff as_ bs)

abbrev sevens : ℕ → List ℕ
sevens zero = []
sevens (suc n) = 7 ∷ sevens n

-- Every text stands for the same 32 bytes.
abbrev plain : TokenCode String
plain = record {
  to_str = λ value. some value;
  decode = λ presented. some (sevens 32);
  ct_eq = bytes_beq;
}

abbrev server : McpHttpAuth String
server = with_authorization (sevens 32) fresh

abbrev at_five : Moment
at_five = record { alive = held; reload = 1; now = 5 }

abbrev presenting : List String
presenting = "Bearer BwcH" ∷ []

authorized_request_iff_example :
    (is_granted (authorized_request plain at_five presenting server).0 ≡ true)
    ↔ Presents plain presenting (some (sevens 32))
authorized_request_iff_example =
    authorized_request_iff plain bytes_beq_iff at_five server presenting refl

lease_expires_example :
    is_current 6
      (run plain
        (authorized_request plain at_five presenting server).1
        (Event.disables held ∷ [])).authorization
      first_lease
    ≡ false
unfolding authorized_request withdrawals current_lease
lease_expires_example =
    lease_expires plain at_five presenting server (Event.disables held ∷ []) first_lease 6 refl
      (omega arith) (omega arith) (omega arith)
