-- ===== src/Native.antt =====
-- ci-lib-native: notifiers, and the bytes of artifacts.
pub mod Notifier
pub mod Io
pub mod Github
pub mod Mail
