-- ===== src/Consent/Examples/Chains.antt =====
-- The chain theorems at the store with two grants.
use comptrol.Base.{hex_pad, ◌≡◌, refl, String, none, some, List, [], ◌∷◌, ok}
use comptrol.Consent.{r2}
use comptrol.Consent.Scopes.{local_user}
use comptrol.Consent.Store.{
  missing, content, grant, revoke, written, torn, open_store, encode, new_grant, grant_digest,
}
use comptrol.Consent.Store.Chain.{IsValid, reopen, grant-IsValid, revoke-IsValid}
use comptrol.Consent.Store.Commitment.{head_commits}
use comptrol.Consent.Examples.Fixtures.{
  line_of, codec, codec-CodecLaws, codec-CollisionFree, empty, two_grants, first_grant,
  second_grant, write_scope,
}

empty-IsValid : IsValid codec empty
empty-IsValid = record { linked = tt; head_last = refl }

one_grant-IsValid :
    IsValid codec
      (grant codec written empty missing "fs.write" write_scope local_user r2 none 10 11).store
one_grant-IsValid =
    grant-IsValid codec codec-CodecLaws written empty missing "fs.write" write_scope local_user r2
      none 10 11 empty-IsValid

two_grants-IsValid : IsValid codec two_grants
unfolding new_grant grant_digest hex_pad
two_grants-IsValid = record {
  linked = (refl, refl, refl, (refl, refl, refl, tt));
  head_last = refl;
}

-- The lines of its file.
abbrev stored : List String
stored = line_of first_grant ∷ line_of second_grant ∷ []

stored_eq : encode codec two_grants.grants ≡ some stored
unfolding encode
stored_eq = refl

one_line_eq : encode codec (first_grant ∷ []) ≡ some (line_of first_grant ∷ [])
unfolding encode
one_line_eq = refl

stored_opens : open_store codec two_grants.path (content stored) ≡ ok two_grants
stored_opens = reopen codec codec-CodecLaws two_grants stored two_grants-IsValid stored_eq

reopen_example : open_store codec two_grants.path (content stored) ≡ ok two_grants
reopen_example = reopen codec codec-CodecLaws two_grants stored two_grants-IsValid stored_eq

grant-IsValid_example :
    IsValid codec
      (grant codec
        (torn missing)
        two_grants
        (content stored)
        "fs.list"
        write_scope
        local_user
        r2
        none
        30
        31).store
grant-IsValid_example =
    grant-IsValid codec codec-CodecLaws (torn missing) two_grants (content stored) "fs.list"
      write_scope local_user r2 none 30 31 two_grants-IsValid

revoke-IsValid_example :
    IsValid codec (revoke codec written two_grants (content stored) first_grant.id).store
revoke-IsValid_example =
    revoke-IsValid codec codec-CodecLaws written two_grants (content stored) first_grant.id
      two_grants-IsValid

head_commits_example : two_grants.grants ≡ two_grants.grants
head_commits_example =
    head_commits codec codec-CodecLaws codec-CollisionFree two_grants.path two_grants.path
      (content stored) (content stored) two_grants two_grants stored_opens stored_opens refl
