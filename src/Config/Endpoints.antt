-- ===== src/Config/Endpoints.antt =====
-- src/config.rs: the endpoints of accounts and jurisdictions.
use r2kit.Prelude.{
  ◌≡◌, refl, ap, sym, ◌∙◌, arith, Text, codes, length, drop, [], ◌∷◌, ◌++◌, ◌==◌, if◌then◌else◌,
}
use r2kit.Config.{R2Config, R2Jurisdiction, default, eu, us, fed_ramp, as_str, endpoint_url}
use r2kit.Config.Accepts.{IsConfig}

-- What follows the account in the address.
host : R2Jurisdiction → Text
host default = codes ".r2.cloudflarestorage.com"
host eu = codes ".eu.r2.cloudflarestorage.com"
host us = codes ".us.r2.cloudflarestorage.com"
host fed_ramp = codes ".fedramp.r2.cloudflarestorage.com"

endpoint_url_lem :
    (c : R2Config) (j : R2Jurisdiction)
    → c.jurisdiction ≡ j
    → endpoint_url c ≡ codes "https://" ++ c.account_id ++ host j
unfolding endpoint_url host as_str
endpoint_url_lem c default e = rw e
endpoint_url_lem c eu e = rw e
endpoint_url_lem c us e = rw e
endpoint_url_lem c fed_ramp e = rw e

-- The byte after the dot tells the hosts apart.
chosen : Text → R2Jurisdiction
chosen (dot ∷ byte ∷ rest) =
    if byte == b'e'
    then eu
    else (if byte == b'u' then us else (if byte == b'f' then fed_ramp else default))
chosen _ = default

chosen-host : (j : R2Jurisdiction) → chosen (host j) ≡ j
unfolding host chosen
chosen-host default = refl
chosen-host eu = refl
chosen-host us = refl
chosen-host fed_ramp = refl

append-injective :
    (xs ys ss ts : Text) → length xs ≡ length ys → xs ++ ss ≡ ys ++ ts → (xs ≡ ys) × (ss ≡ ts)
append-injective [] [] ss ts l h = (refl, h)
append-injective [] (y ∷ ys) ss ts l h = absurd (omega arith)
append-injective (x ∷ xs) [] ss ts l h = absurd (omega arith)
append-injective (x ∷ xs) (y ∷ ys) ss ts l h =
    let (e, f) = append-injective xs ys ss ts (omega arith) cc in (cc, f)

-- Two valid configurations have the same endpoint only for the same account and the same jurisdiction:
-- no request of an account in one jurisdiction reaches the endpoint of another.
pub endpoint_url-injective :
    (c d : R2Config)
    → IsConfig c
    → IsConfig d
    → endpoint_url c ≡ endpoint_url d
    → (c.account_id ≡ d.account_id) × (c.jurisdiction ≡ d.jurisdiction)
endpoint_url-injective c d valid valid' h =
    let same = ap (drop 8) (sym (endpoint_url_lem c _ refl) ∙ h ∙ endpoint_url_lem d _ refl) in
    let (id, hosts) =
      append-injective c.account_id d.account_id _ _ (valid.id_length ∙ sym valid'.id_length)
        same in
    (id, sym (chosen-host c.jurisdiction) ∙ ap chosen hosts ∙ chosen-host d.jurisdiction)
