-- ===== src/Http/Parser.antt =====
-- src/LibHttp/HttpParser.h, private/HttpParser.cpp and HttpRequest.h: the incremental request parser.
-- The header buffer is the list of the bytes written to it so far, `headerSize_` its length; a view
-- is an offset into it and a length. Defs has the state and the copying of bytes, Interpret what is
-- read out of the path, the headers and the cookies, Step the parser functions and the loop.
pub mod Defs
pub mod Interpret
pub mod Step
pub mod Bounds
pub mod Termination
pub mod Queries
pub mod Request
pub mod TooLong
