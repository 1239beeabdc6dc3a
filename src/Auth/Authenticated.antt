-- ===== src/Auth/Authenticated.antt =====
-- What the whole of the authentication asks of a request.
