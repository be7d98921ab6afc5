-- ===== src/Http.antt =====
-- net/http_client: the requests to web servers (`Http/Request`), and the object of each thread that
-- carries them out (`Http/Stub`). What libcurl returns is given.
pub mod Request
pub mod Stub
