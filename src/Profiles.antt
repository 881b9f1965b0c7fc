-- ===== src/Profiles.antt =====
-- `XRECHNUNG_UBL_3_0_2` of src/rechnungsprobe/profiles.py, with what a finding keeps of it.
use rechnungsprobe.Prelude.{Text, codes, List, [], ◌∷◌}

pub record Profile : Type 0 where
  pub identifier : Text
  pub validator_version : Text
  pub configuration_version : Text
  pub validator_sha256 : Text
  pub configuration_sha256 : Text

abbrev pub xrechnung_ubl_3_0_2 : Profile
xrechnung_ubl_3_0_2 = record {
  identifier = codes "xrechnung-ubl-3.0.2-2026-01-31";
  validator_version = codes "1.6.2";
  configuration_version = codes "2026-01-31";
  validator_sha256 = codes "244978514ad48f67c7573acfffc8f4fd73d81feda6f276710033f9913579857e";
  configuration_sha256 = codes "6a5a5911a421b25fbc423f62f93f894df7b236f5d73ca4f84bb222a945082704";
}

unfoldable pub profile_payload : Profile → List (Text × Text)
profile_payload profile =
    (codes "configuration_sha256", profile.configuration_sha256)
    ∷ (codes "configuration_version", profile.configuration_version)
    ∷ (codes "identifier", profile.identifier)
    ∷ (codes "validator_sha256", profile.validator_sha256)
    ∷ (codes "validator_version", profile.validator_version)
    ∷ []
