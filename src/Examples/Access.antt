-- ===== src/Examples/Access.antt =====
-- Access control at concrete users and topics.
use shark_mqtt.Prelude.{◌≡◌, refl, true, none, some, [], ◌∷◌, Str, codes}
use shark_mqtt.Protocol.Topic.{
  split_topic, split_from, validate_publish_topic, match_sys_protected, first_level, match_topic,
  match_levels,
}
use shark_mqtt.Broker.Auth.{
  user_not_found, auth_failed, Authenticator, StaticAuth, new_static_auth, add_acl, acl_covers,
  covers_levels,
}
use shark_mqtt.Broker.Auth.Covers.{acl_covers_sound}

abbrev wide : Str
wide = codes "a/#"

abbrev narrow : Str
narrow = codes "a/+"

abbrev leaf : Str
leaf = codes "a/b"

narrow_covered : acl_covers wide narrow ≡ true
unfolding acl_covers covers_levels split_topic split_from
narrow_covered = refl

leaf_matched : match_sys_protected narrow leaf ≡ true
unfolding match_sys_protected first_level match_topic match_levels split_topic split_from
leaf_matched = refl

leaf_valid : validate_publish_topic leaf ≡ true
unfolding validate_publish_topic
leaf_valid = refl

acl_covers_sound_example : match_sys_protected wide leaf ≡ true
acl_covers_sound_example = acl_covers_sound wide narrow leaf narrow_covered leaf_matched

abbrev auth : StaticAuth
auth =
    add_acl (codes "bob") (record { publish_topics = wide ∷ []; subscribe_topics = [] })
      (new_static_auth 10)

abbrev unknown : Authenticator
unknown c u p = some user_not_found

abbrev refusing : Authenticator
refusing c u p = some auth_failed

abbrev accepting : Authenticator
accepting c u p = none
