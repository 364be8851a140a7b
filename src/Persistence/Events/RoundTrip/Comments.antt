-- ===== src/Persistence/Events/RoundTrip/Comments.antt =====
-- EventObserver.cpp, EventImporter.cpp: events of votes, comments and quotes are read back as they were written.
use forum.Base.{ℕ, Bytes, arith}
use forum.Persistence.Payload.{ObserverContext}
use forum.Persistence.Payload.Reading.{FitsContext}
use forum.Persistence.Events.{Event}
use forum.Persistence.Events.Observer
use forum.Persistence.Events.Importer
use forum.Persistence.Events.Importer.{dispatch}
use forum.Persistence.Events.RoundTrip.Header.{reading, process_event-record_blob}
use forum.Persistence.Events.RoundTrip.Recorded.{IsReadBack}
use forum.Persistence.Events.RoundTrip.Writable.{IsWritable}

pub process_event-on_discussion_thread_message_up_vote :
    (context : ObserverContext) (id : ℕ)
    → FitsContext context
    → IsWritable (Event.discussion_thread_message_up_vote id)
    → IsReadBack context (Event.discussion_thread_message_up_vote id)
unfolding Observer.Messages.on_discussion_thread_message_up_vote dispatch
    Importer.Messages.import_discussion_thread_message_up_vote_v1
process_event-on_discussion_thread_message_up_vote context id c h =
    process_event-record_blob _ _ _ (omega arith) (omega arith) (simp reading)

pub process_event-on_discussion_thread_message_down_vote :
    (context : ObserverContext) (id : ℕ)
    → FitsContext context
    → IsWritable (Event.discussion_thread_message_down_vote id)
    → IsReadBack context (Event.discussion_thread_message_down_vote id)
unfolding Observer.Messages.on_discussion_thread_message_down_vote dispatch
    Importer.Messages.import_discussion_thread_message_down_vote_v1
process_event-on_discussion_thread_message_down_vote context id c h =
    process_event-record_blob _ _ _ (omega arith) (omega arith) (simp reading)

pub process_event-on_discussion_thread_message_reset_vote :
    (context : ObserverContext) (id : ℕ)
    → FitsContext context
    → IsWritable (Event.discussion_thread_message_reset_vote id)
    → IsReadBack context (Event.discussion_thread_message_reset_vote id)
unfolding Observer.Messages.on_discussion_thread_message_reset_vote dispatch
    Importer.Messages.import_discussion_thread_message_reset_vote_v1
process_event-on_discussion_thread_message_reset_vote context id c h =
    process_event-record_blob _ _ _ (omega arith) (omega arith) (simp reading)

pub process_event-on_add_comment_to_discussion_thread_message :
    (context : ObserverContext) (comment_id message_id : ℕ) (comment : Bytes)
    → FitsContext context
    → IsWritable (Event.add_comment_to_discussion_thread_message comment_id message_id comment)
    → IsReadBack context
        (Event.add_comment_to_discussion_thread_message comment_id message_id comment)
unfolding Observer.Messages.on_add_comment_to_discussion_thread_message dispatch
    Importer.Messages.import_add_comment_to_discussion_thread_message_v1
process_event-on_add_comment_to_discussion_thread_message context comment_id message_id comment c
      (h1, h2, h3, h4) =
    process_event-record_blob _ _ _ (omega arith) (omega arith) (simp reading)

pub process_event-on_solve_discussion_thread_message_comment :
    (context : ObserverContext) (id : ℕ)
    → FitsContext context
    → IsWritable (Event.solve_discussion_thread_message_comment id)
    → IsReadBack context (Event.solve_discussion_thread_message_comment id)
unfolding Observer.Messages.on_solve_discussion_thread_message_comment dispatch
    Importer.Messages.import_solve_discussion_thread_message_comment_v1
process_event-on_solve_discussion_thread_message_comment context id c h =
    process_event-record_blob _ _ _ (omega arith) (omega arith) (simp reading)

pub process_event-on_quote_user_in_discussion_thread_message :
    (context : ObserverContext) (message_id user_id : ℕ)
    → FitsContext context
    → IsWritable (Event.quote_user_in_discussion_thread_message message_id user_id)
    → IsReadBack context (Event.quote_user_in_discussion_thread_message message_id user_id)
unfolding Observer.Messages.on_quote_user_in_discussion_thread_message dispatch
    Importer.Messages.import_quote_user_in_discussion_thread_message_v1
process_event-on_quote_user_in_discussion_thread_message context message_id user_id c (h1, h2) =
    process_event-record_blob _ _ _ (omega arith) (omega arith) (simp reading)
