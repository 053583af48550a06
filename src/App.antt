-- ===== src/App.antt =====
-- The routes that change state or decide access (gridraft/app.py). A handler takes what the request
-- and the network give as arguments; an `HTTPException` is its status.
pub mod Http
pub mod Requests
pub mod PrepaidChat
pub mod Eligibility
pub mod Ingress
pub mod SignIn
pub mod KeyRoutes
pub mod Inference
pub mod Preflight
pub mod Operator
