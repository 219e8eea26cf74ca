-- ===== src/Http.antt =====
-- reyao/http: messages, their parser, and the dispatch of requests to servlets.
pub mod Headers
pub mod Request
pub mod Response
pub mod Parser
pub mod RequestParser
pub mod ResponseParser
pub mod Servlet
mod Examples
pub mod Server
