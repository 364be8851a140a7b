-- ===== src/Persistence/Events/RoundTrip/Categories.antt =====
-- EventObserver.cpp, EventImporter.cpp: events of categories are read back as they were written.
use forum.Base.Int.{ℤ}
use forum.Base.{ℕ, Bytes, arith}
use forum.Persistence.Payload.{ObserverContext}
use forum.Persistence.Payload.Reading.{FitsContext}
use forum.Persistence.Events.{Event}
use forum.Persistence.Events.Observer
use forum.Persistence.Events.Importer
use forum.Persistence.Events.Importer.{dispatch}
use forum.Persistence.Events.RoundTrip.Header.{reading, process_event-record_blob}
use forum.Persistence.Events.RoundTrip.Recorded.{IsReadBack}
use forum.Persistence.Events.RoundTrip.Writable.{IsWritable}

pub process_event-on_add_new_discussion_category :
    (context : ObserverContext) (category_id parent_id : ℕ) (category_name : Bytes)
    → FitsContext context
    → IsWritable (Event.add_new_discussion_category category_id parent_id category_name)
    → IsReadBack context (Event.add_new_discussion_category category_id parent_id category_name)
unfolding Observer.Categories.on_add_new_discussion_category dispatch
    Importer.Categories.import_add_new_discussion_category_v1
process_event-on_add_new_discussion_category context category_id parent_id category_name c
      (h1, h2, h3, h4) =
    process_event-record_blob _ _ _ (omega arith) (omega arith) (simp reading)

pub process_event-on_change_discussion_category_name :
    (context : ObserverContext) (id : ℕ) (category_name : Bytes)
    → FitsContext context
    → IsWritable (Event.change_discussion_category_name id category_name)
    → IsReadBack context (Event.change_discussion_category_name id category_name)
unfolding Observer.Categories.on_change_discussion_category_name dispatch
    Importer.Categories.import_change_discussion_category_name_v1
process_event-on_change_discussion_category_name context id category_name c (h1, h2, h3) =
    process_event-record_blob _ _ _ (omega arith) (omega arith) (simp reading)

pub process_event-on_change_discussion_category_description :
    (context : ObserverContext) (id : ℕ) (description : Bytes)
    → FitsContext context
    → IsWritable (Event.change_discussion_category_description id description)
    → IsReadBack context (Event.change_discussion_category_description id description)
unfolding Observer.Categories.on_change_discussion_category_description dispatch
    Importer.Categories.import_change_discussion_category_description_v1
process_event-on_change_discussion_category_description context id description c (h1, h2) =
    process_event-record_blob _ _ _ (omega arith) (omega arith) (simp reading)

pub process_event-on_change_discussion_category_display_order :
    (context : ObserverContext) (id : ℕ) (display_order : ℤ)
    → FitsContext context
    → IsWritable (Event.change_discussion_category_display_order id display_order)
    → IsReadBack context (Event.change_discussion_category_display_order id display_order)
unfolding Observer.Categories.on_change_discussion_category_display_order dispatch
    Importer.Categories.import_change_discussion_category_display_order_v1
process_event-on_change_discussion_category_display_order context id display_order c (h1, h2) =
    process_event-record_blob _ _ _ (omega arith) (omega arith) (simp reading)

pub process_event-on_change_discussion_category_parent :
    (context : ObserverContext) (category_id parent_id : ℕ)
    → FitsContext context
    → IsWritable (Event.change_discussion_category_parent category_id parent_id)
    → IsReadBack context (Event.change_discussion_category_parent category_id parent_id)
unfolding Observer.Categories.on_change_discussion_category_parent dispatch
    Importer.Categories.import_change_discussion_category_parent_v1
process_event-on_change_discussion_category_parent context category_id parent_id c (h1, h2) =
    process_event-record_blob _ _ _ (omega arith) (omega arith) (simp reading)

pub process_event-on_delete_discussion_category :
    (context : ObserverContext) (id : ℕ)
    → FitsContext context
    → IsWritable (Event.delete_discussion_category id)
    → IsReadBack context (Event.delete_discussion_category id)
unfolding Observer.Categories.on_delete_discussion_category dispatch
    Importer.Categories.import_delete_discussion_category_v1
process_event-on_delete_discussion_category context id c h =
    process_event-record_blob _ _ _ (omega arith) (omega arith) (simp reading)

pub process_event-on_add_discussion_tag_to_category :
    (context : ObserverContext) (tag_id category_id : ℕ)
    → FitsContext context
    → IsWritable (Event.add_discussion_tag_to_category tag_id category_id)
    → IsReadBack context (Event.add_discussion_tag_to_category tag_id category_id)
unfolding Observer.Categories.on_add_discussion_tag_to_category dispatch
    Importer.Categories.import_add_discussion_tag_to_category_v1
process_event-on_add_discussion_tag_to_category context tag_id category_id c (h1, h2) =
    process_event-record_blob _ _ _ (omega arith) (omega arith) (simp reading)

pub process_event-on_remove_discussion_tag_from_category :
    (context : ObserverContext) (tag_id category_id : ℕ)
    → FitsContext context
    → IsWritable (Event.remove_discussion_tag_from_category tag_id category_id)
    → IsReadBack context (Event.remove_discussion_tag_from_category tag_id category_id)
unfolding Observer.Categories.on_remove_discussion_tag_from_category dispatch
    Importer.Categories.import_remove_discussion_tag_from_category_v1
process_event-on_remove_discussion_tag_from_category context tag_id category_id c (h1, h2) =
    process_event-record_blob _ _ _ (omega arith) (omega arith) (simp reading)
