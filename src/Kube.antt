-- ===== src/Kube.antt =====
-- What both controllers share of the Kubernetes world: untyped objects, their JSON text, errors,
-- and the calls of the libraries as interfaces.
pub mod Value
pub mod Json
pub mod Error
pub mod Exec
pub mod Program
pub mod Machinery
