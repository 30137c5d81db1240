-- ===== src/Server/App/Version.antt =====
-- Which requests the version guard of crates/server/src/app.rs lets through.
use Prim.Native.Char.{code}
use Prim.Native.String.{String, [], ◌∷◌}
use trust_server.Common.{
  ℕ, ◌+◌, ◌-◌, ◌*◌, ◌≡◌, refl, Bool, true, false, ◌&&◌, Option, none, some, arith, ◌==◌,
  if◌then◌else◌, is_just,
}
use trust_server.Common.Text.{parse_digits, parse_u32}
use trust_server.Server.Response.{Response}
use trust_server.Server.World.{World}
use trust_server.Server.Headers.{Headers, header, and_then}
use trust_server.Server.App.{unsupported_version, require_protocol_version}

abbrev pub all_zeros : String → Bool
all_zeros [] = true
all_zeros (c ∷ s) = code c == 48 && all_zeros s

-- one zero or more
abbrev pub zeros : String → Bool
zeros [] = false
zeros (c ∷ s) = all_zeros (c ∷ s)

-- the texts that stand for the version 0, with a plus sign in front or not
abbrev pub names_zero : String → Bool
names_zero [] = false
names_zero (c ∷ s) = if code c == 43 then zeros s else zeros (c ∷ s)

parse_digits-zeros :
    (acc : ℕ) (s : String) → is_just 0 (parse_digits acc s) ≡ (acc == 0 && all_zeros s)
unfolding parse_digits
parse_digits-zeros acc [] = ground arith
parse_digits-zeros acc (c ∷ s) = ground (arith, parse_digits-zeros (acc * 10 + (code c - 48)) s)

parse_u32-zeros : (s : String) → is_just 0 (parse_u32 s) ≡ names_zero s
unfolding parse_u32
parse_u32-zeros [] = refl
parse_u32-zeros (c ∷ []) = ground (arith, parse_digits-zeros 0 (c ∷ []))
parse_u32-zeros (c ∷ d ∷ s) =
    ground (arith, parse_digits-zeros 0 (c ∷ d ∷ s), parse_digits-zeros 0 (d ∷ s))

abbrev pub admitted : Option String → Bool
admitted none = false
admitted (some s) = names_zero s

admitted-parse_u32 : (v : Option String) → is_just 0 (and_then v parse_u32) ≡ admitted v
admitted-parse_u32 none = refl
admitted-parse_u32 (some s) = parse_u32-zeros s

-- The guard lets a request through, unchanged, exactly if the value of its header
-- `trust-protocol-version` is zeros, one at least, with a plus sign in front or not; any other
-- request gets the status 426, reaches no handler and changes nothing.
pub guard_admits_zeros :
    (headers : Headers) (next : World → Response × World) (w : World)
    → require_protocol_version headers next w ≡ (
        if admitted (header "trust-protocol-version" headers)
        then next w
        else (unsupported_version, w))
unfolding require_protocol_version
guard_admits_zeros headers next w =
    rw (admitted-parse_u32 (header "trust-protocol-version" headers)) refl
