-- ===== src/Http.antt =====
-- cppboot/net/http: the HTTP server's and client's data and their handling.
pub mod FormData
pub mod Url
pub mod Request
pub mod RequestParser
pub mod UrlDecode
pub mod ClientServer
pub mod Response
pub mod ServeMux
pub mod Connections
pub mod Client
pub mod FileServer
