-- ===== src/Exchange/Repeated.antt =====
-- A call of a cacheable tool with small arguments that is made twice: the whole result the first
-- time, and then a reference that the client resolves.
use ohmcp.Core.Frame.{Frame}
use ohmcp.Server.Session.{Session}
use ohmcp.Cache.ResultCache
