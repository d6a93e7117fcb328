-- ===== src/Examples/Retained.antt =====
-- Retained messages at concrete topics.
use shark_mqtt.Prelude.{◌≡◌, none, codes, if◌then◌else◌}
use shark_mqtt.Protocol.Topic.{match_topic}
use shark_mqtt.Store.Memory.{
  RetainedMessage, RetainedStore, new_retained_store, save_retained, delete_retained,
  match_retained, get_retained,
}
use shark_mqtt.Store.Memory.Visits.{result_of}
use shark_mqtt.Store.Memory.Consistent.{
  IsStore, new_retained_store-IsStore, save_retained-IsStore, operations-IsStore,
}
use shark_mqtt.Store.Memory.Retained.{match_retained_lem}

abbrev status : RetainedMessage
status = record {
  topic = codes "a/b";
  payload = codes "on";
  qos = 1;
  timestamp = 0;
  properties = codes "";
}

abbrev one_message : RetainedStore
one_message = save_retained 7 status new_retained_store

one_message-IsStore : IsStore one_message
one_message-IsStore = save_retained-IsStore 7 status new_retained_store new_retained_store-IsStore

match_retained_example : result_of status.topic (match_retained (codes "a/#") one_message) ≡ (
    if match_topic (codes "a/#") status.topic then get_retained status.topic one_message else none)
match_retained_example =
    match_retained_lem (codes "a/#") status.topic one_message one_message-IsStore

operations-IsStore_example :
    IsStore new_retained_store
    × IsStore (save_retained 8 status one_message)
    × IsStore (delete_retained (codes "a/b") one_message)
operations-IsStore_example =
    operations-IsStore 8 status (codes "a/b") one_message one_message-IsStore
