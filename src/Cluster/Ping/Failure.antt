-- ===== src/Cluster/Ping/Failure.antt =====
-- When the goroutines of `start` of cluster/remoteNode.go give a remote node up.
use ngbigcache.Base.{ℕ, zero, suc, ◌≡◌, Bool, true, false, if◌then◌else◌}
use ngbigcache.Base.Int.{ltb_ℤ}
use ngbigcache.Cluster.Types.{RemoteNode}
use ngbigcache.Cluster.Ping.{ping_tick, ping_timed_out}

-- Whether `pingTimeout`, where it runs since the last tick of `pingTimer`, ends before the next one;
-- `tie` says so where both end at once.
unfoldable pub ends_first : Bool → RemoteNode → Bool
ends_first tie x =
    if x.timer_armed
    then (if ltb_ℤ x.config.ping_timeout x.config.ping_interval
        then true
        else if ltb_ℤ x.config.ping_interval x.config.ping_timeout
        then false
        else tie)
    else false

-- From a tick of `pingTimer` to the next one, without a pong.
unfoldable pub unanswered_ping : Bool → RemoteNode → RemoteNode × Bool
unfolding ping_tick ends_first
unanswered_ping tie x =
    let ticked = ping_tick x in
    if ends_first tie ticked then ping_timed_out ticked else (ticked, false)

-- So many ticks without a pong: `true` where the remote node stops.
unfoldable pub unanswered : Bool → ℕ → RemoteNode → RemoteNode × Bool
unanswered tie zero x = (x, false)
unanswered tie (suc n) x =
    let ended = unanswered_ping tie x in
    let rest = unanswered tie n ended.0 in if ended.1 then (ended.0, true) else rest

-- The timer is shorter than the time between two ticks, or longer.
abbrev pub IsShort : RemoteNode → Type 0
IsShort x = ltb_ℤ x.config.ping_timeout x.config.ping_interval ≡ true

abbrev pub IsLong : RemoteNode → Type 0
IsLong x =
    (ltb_ℤ x.config.ping_timeout x.config.ping_interval ≡ false)
    × (ltb_ℤ x.config.ping_interval x.config.ping_timeout ≡ true)
