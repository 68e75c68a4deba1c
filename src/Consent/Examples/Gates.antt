-- ===== src/Consent/Examples/Gates.antt =====
-- The authorization gate at the store with two grants.
use comptrol.Base.{eq_iff, eq_string, hex_pad, ◌≡◌, ◌≢◌, refl, none, some, [], ◌∷◌, Has, arith}
use comptrol.Consent.{r0, r2, allowed}
use comptrol.Consent.Scopes.{covers}
use comptrol.Consent.Store.{ConsentGrant, authorize, expired, revoke, written, content, new_grant}
use comptrol.Consent.Store.Gate.{Permits, authorize_sound, revoke_denies}
use comptrol.Consent.Examples.Fixtures.{codec, two_grants, first_grant, second_grant, line_of}

first-Permits : Permits 40 "fs.write" "write_file" r2 (some "/home/ada/notes") first_grant
unfolding new_grant expired
first-Permits = record {
  capability_eq = refl;
  alive = refl;
  in_scope = record { intent_ok = refl; risk_ok = omega arith; resource_ok = refl };
}

second-Permits : Permits 40 "fs.read" "list" r0 none second_grant
unfolding new_grant expired
second-Permits = record {
  capability_eq = refl;
  alive = refl;
  in_scope = record { intent_ok = tt; risk_ok = omega arith; resource_ok = tt };
}

allows :
    authorize two_grants 40 "fs.write" "write_file" r2 (some "/home/ada/notes")
    ≡ allowed first_grant.id
unfolding authorize new_grant expired covers
allows = refl

authorize_sound_example :
    (g : ConsentGrant) × Has g two_grants.grants
    × (g.id ≡ first_grant.id)
    × Permits 40 "fs.write" "write_file" r2 (some "/home/ada/notes") g
authorize_sound_example =
    authorize_sound two_grants 40 "fs.write" "write_file" r2 (some "/home/ada/notes") first_grant.id
      allows

revoke_denies_example :
    authorize
      (revoke codec written two_grants (content (line_of first_grant ∷ [])) first_grant.id).store
      40
      "fs.write"
      "write_file"
      r2
      (some "/home/ada/notes")
    ≢ allowed first_grant.id
revoke_denies_example =
    revoke_denies codec written two_grants (content (line_of first_grant ∷ [])) first_grant.id 40
      "fs.write" "write_file" r2 (some "/home/ada/notes")

other_id : second_grant.id ≢ first_grant.id
unfolding new_grant hex_pad
other_id h = absurd (ground (arith, eq_iff second_grant.id first_grant.id))
