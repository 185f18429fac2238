-- ===== src/Tests.antt =====
-- Runs of the model on concrete inputs, and the theorems at inputs that meet their hypotheses.
mod Signal
mod Identity
mod Secure
mod Peer
mod Ownerfs
mod Signaling
mod Claudy
mod Session
mod Owner
mod Files
mod ShareDelete
mod Admission
mod Races
