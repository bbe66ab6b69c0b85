-- ===== src/Acl.antt =====
-- extras/outbounds/acl and extras/outbounds/acl.go: rules that choose an outbound.
pub mod Matchers
pub mod Glob
pub mod RuleSet
pub mod ProtoPort
pub mod Runs
