-- ===== src/Lib.antt =====
-- Fast Forum Backend: a model of its authorization, of the repository of privileges, of its HTTP request
-- parser, of the files that it persists events in, and of the helpers that these use.
--
-- The parts and the files of the repository that they model:
-- - Authorization. Privileges: the values and stores of required privileges
--   (src/LibForumData/AuthorizationPrivileges.h). Entities: what a message, a thread, a tag, a category
--   or the forum requires (EntityDiscussion*.cpp in src/LibForumData/private). Store: the granted
--   privileges and the levels that a user has on an entity; Allowed: isAllowed; Batch:
--   computeDiscussionThreadMessageVisibilityAllowed; Enumeration: the enumerate functions (all in
--   src/LibForumData/private/AuthorizationGrantedPrivilegeStore.cpp). Restriction:
--   SerializationRestriction (src/LibForumData/AuthorizationGrantedPrivilegeStore.h). Throttling:
--   src/LibForumData/ThrottlingCheck.h. Enums: the privileges, with their positions, and the throttled
--   actions (AuthorizationPrivileges.h). DefaultThrottling: DefaultThrottling.cpp, with IdOrIpAddress.h.
--   DefaultAuthorization: the rules of DefaultAuthorization.cpp, in a child module for each kind of
--   entity; Changes has the rules for required privileges, Assignments those for granted ones, and
--   Requests sequences of requests under the rules that throttle. A check compares the sum of the highest
--   positive and the lowest negative level found on the entity and on what it belongs to with what the
--   entity requires.
-- - Http. UrlEncoding: src/LibHttp/HttpStringHelpers.h. Parser: src/LibHttp/private/HttpParser.cpp with
--   HttpParser.h and HttpRequest.h. Parser/Defs has the state, Interpret the path, the headers and the
--   cookies, Step the parser functions and process. BufferPool: src/LibHttp/FixedSizeBufferPool.h.
-- - Persistence. Blobs: FileAppender::append (src/LibForumPersistence/private/FileAppender.cpp) and
--   iterateBlobsInFile (EventImporter.cpp) with PersistenceFormat.h. Payload: recordBlob of
--   EventObserver.cpp, and how EventImporter.cpp reads values and the context of an event. Events: the
--   events, as what the observer is told and the importer hands on; Events/Observer has what
--   EventObserver.cpp writes for each, Events/Importer the functions of EventImporter.cpp that read
--   them, in all versions, and processEvent.
-- - Repository. Collection: what is changed of EntityCollection (src/LibForumData/EntityCollection.h), and
--   the indexes by id. Changes, ForumChanges and Grants: the functions of
--   src/LibForumData/private/MemoryRepositoryAuthorization.cpp on the collection; Required,
--   ForumRequired and Assigned: the functions that a request calls, which check their parameters, search
--   the entity, ask a rule of DefaultAuthorization, write an event and call the former. Import: the calls
--   of the former by EventImporter.cpp. Operations runs requests, Recovery restores the collection from the
--   events, and Restart from the file that they are in.
-- - Helpers. Uuid (src/LibForumHelpers/private/UuidString.cpp), IpAddress (IpAddress.cpp) and
--   CircularBuffer (src/LibForumHelpers/CircularBuffer.h).
-- - Base: what the parts share. The Tests modules run the definitions on small inputs.
--
-- State is passed explicitly: an operation takes a record and gives the new one, and the fields have
-- the names of the members. Values of int16_t are integers, with the conversion written out where the
-- source converts; sizes are natural numbers without a bound, since no modelled sum of sizes reaches
-- 2 ^ 64, but for the size that the importer counts down, which wraps as it does. Ids and addresses are
-- the numbers that their 16 bytes stand for. A rule of DefaultAuthorization is a function of the checks
-- that DefaultThrottling keeps where it counts an action, and a status otherwise. A buffer is the list
-- of its bytes, a pointer into it an offset. The arrays of 64 query pairs and 32 cookies are lists, exact
-- up to these numbers; the source writes behind the arrays where there are more.
--
-- Three loops run on fuel. Parser::process gets two units for a byte and two more: each round reads a
-- byte, but for one of parseHeaderSpacing, which then leaves its state. iterateBlobsInFile gets one
-- for each byte and one more, and a round reads at least 16 bytes. The loop of ThrottlingCheck that
-- reduces the index gets the index: each round takes at least 1 away where the maximum is not 0.
--
-- Parameters: the floating point product for the bonus of a user's messages, boost's crc_32 and
-- try_lexical_convert, the lookup of header names in the trie, the callback for bytes of a body, and
-- the importer of one blob. Another is what computeOldValueForAssigningPrivileges reads where it
-- dereferences an empty optional.
--
-- Not modelled: sockets, timers and threads, calls of ICU and of boost, the routes and responses, the
-- other repositories, the answers that repositories write, the numbers of visits that observer and
-- importer keep until they are written, and the writing of JSON.
pub mod Base
pub mod Authorization
pub mod Helpers
pub mod Http
pub mod Persistence
pub mod Repository
