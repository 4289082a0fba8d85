-- ===== src/Ebpf.antt =====
-- Events from the kernel probes (pkg/ebpf).
pub mod Event
pub mod Fields
pub mod Decode
pub mod Filter
pub mod Dns
pub mod DnsMessage
pub mod Sni
pub mod Suspicious
