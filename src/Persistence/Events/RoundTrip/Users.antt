-- ===== src/Persistence/Events/RoundTrip/Users.antt =====
-- EventObserver.cpp, EventImporter.cpp: events of users are read back as they were written.
use forum.Base.{ℕ, Bytes, arith}
use forum.Persistence.Payload.{ObserverContext}
use forum.Persistence.Payload.Reading.{FitsContext}
use forum.Persistence.Events.{Event}
use forum.Persistence.Events.Observer
use forum.Persistence.Events.Importer
use forum.Persistence.Events.Importer.{dispatch}
use forum.Persistence.Events.RoundTrip.Header.{reading, process_event-record_blob}
use forum.Persistence.Events.RoundTrip.Recorded.{IsReadBack}
use forum.Persistence.Events.RoundTrip.Writable.{IsWritable}

pub process_event-on_add_new_user :
    (context : ObserverContext) (id : ℕ) (auth user_name : Bytes)
    → FitsContext context
    → IsWritable (Event.add_new_user id auth user_name)
    → IsReadBack context (Event.add_new_user id auth user_name)
unfolding Observer.Users.on_add_new_user dispatch Importer.Users.import_add_new_user_v1
process_event-on_add_new_user context id auth user_name c (h1, h2, h3, h4, h5) =
    process_event-record_blob _ _ _ (omega arith) (omega arith) (simp reading)

pub process_event-on_change_user_name :
    (context : ObserverContext) (id : ℕ) (new_name : Bytes)
    → FitsContext context
    → IsWritable (Event.change_user_name id new_name)
    → IsReadBack context (Event.change_user_name id new_name)
unfolding Observer.Users.on_change_user_name dispatch Importer.Users.import_change_user_name_v1
process_event-on_change_user_name context id new_name c (h1, h2, h3) =
    process_event-record_blob _ _ _ (omega arith) (omega arith) (simp reading)

pub process_event-on_change_user_info :
    (context : ObserverContext) (id : ℕ) (new_info : Bytes)
    → FitsContext context
    → IsWritable (Event.change_user_info id new_info)
    → IsReadBack context (Event.change_user_info id new_info)
unfolding Observer.Users.on_change_user_info dispatch Importer.Users.import_change_user_info_v1
process_event-on_change_user_info context id new_info c (h1, h2) =
    process_event-record_blob _ _ _ (omega arith) (omega arith) (simp reading)

pub process_event-on_change_user_title :
    (context : ObserverContext) (id : ℕ) (new_title : Bytes)
    → FitsContext context
    → IsWritable (Event.change_user_title id new_title)
    → IsReadBack context (Event.change_user_title id new_title)
unfolding Observer.Users.on_change_user_title dispatch Importer.Users.import_change_user_title_v1
process_event-on_change_user_title context id new_title c (h1, h2) =
    process_event-record_blob _ _ _ (omega arith) (omega arith) (simp reading)

pub process_event-on_change_user_signature :
    (context : ObserverContext) (id : ℕ) (new_signature : Bytes)
    → FitsContext context
    → IsWritable (Event.change_user_signature id new_signature)
    → IsReadBack context (Event.change_user_signature id new_signature)
unfolding Observer.Users.on_change_user_signature dispatch
    Importer.Users.import_change_user_signature_v1
process_event-on_change_user_signature context id new_signature c (h1, h2) =
    process_event-record_blob _ _ _ (omega arith) (omega arith) (simp reading)

pub process_event-on_change_user_logo :
    (context : ObserverContext) (id : ℕ) (new_logo : Bytes)
    → FitsContext context
    → IsWritable (Event.change_user_logo id new_logo)
    → IsReadBack context (Event.change_user_logo id new_logo)
unfolding Observer.Users.on_change_user_logo dispatch Importer.Users.import_change_user_logo_v1
process_event-on_change_user_logo context id new_logo c (h1, h2) =
    process_event-record_blob _ _ _ (omega arith) (omega arith) (simp reading)

pub process_event-on_delete_user :
    (context : ObserverContext) (id : ℕ)
    → FitsContext context
    → IsWritable (Event.delete_user id)
    → IsReadBack context (Event.delete_user id)
unfolding Observer.Users.on_delete_user dispatch Importer.Users.import_delete_user_v1
process_event-on_delete_user context id c h =
    process_event-record_blob _ _ _ (omega arith) (omega arith) (simp reading)

pub process_event-on_change_user_attachment_quota :
    (context : ObserverContext) (id new_quota : ℕ)
    → FitsContext context
    → IsWritable (Event.change_user_attachment_quota id new_quota)
    → IsReadBack context (Event.change_user_attachment_quota id new_quota)
unfolding Observer.Users.on_change_user_attachment_quota dispatch
    Importer.Users.import_change_user_attachment_quota_v1
process_event-on_change_user_attachment_quota context id new_quota c (h1, h2) =
    process_event-record_blob _ _ _ (omega arith) (omega arith) (simp reading)
