-- ===== src/Cluster/Ping.antt =====
-- cluster/remoteNode.go: the goroutines of `start` that watch whether a remote node answers, and the
-- handlers of pings and pongs. The failures are counted in an int32; the
-- goroutine ends before their count does not fit.
pub mod Failure
use ngbigcache.Base.{ℕ, ◌+◌, Bool, true, false, if◌then◌else◌}
use ngbigcache.Base.Int.{ℤ, pos, ltb_ℤ}
use ngbigcache.Message.Any.{ping, pong}
use ngbigcache.Cluster.Types.{RemoteNode}
use ngbigcache.Cluster.Queues.{send_message}

-- What the two goroutines do before their loops: the timer is made, and the first ping is sent.
unfoldable pub start_ping : RemoteNode → RemoteNode
unfolding send_message
start_ping x = send_message (record x { timer_armed = true }) (ping (record { code = 0 }))

-- One tick of `pingTimer`.
unfoldable pub ping_tick : RemoteNode → RemoteNode
unfolding send_message
ping_tick x =
    send_message
      (record x {
        metrics = record x.metrics { ping_sent = x.metrics.ping_sent + 1 };
        timer_armed = true;
      })
      (ping (record { code = 0 }))

-- The timer `pingTimeout` ends: `true` where the goroutine, and with it the remote node, stops.
unfoldable pub ping_timed_out : RemoteNode → RemoteNode × Bool
ping_timed_out x = (
  record x { timer_armed = false; ping_failure = x.ping_failure + 1 },
  if ltb_ℤ (pos (x.ping_failure + 1)) x.config.ping_failure_threshold then false else true,
)

-- `handlePing`
unfoldable pub handle_ping : RemoteNode → RemoteNode
unfolding send_message
handle_ping x =
    let counted : RemoteNode = record x {
      metrics = record x.metrics { ping_received = x.metrics.ping_received + 1 };
    } in
    let sent = send_message counted (pong (record { code = 0 })) in
    record sent { metrics = record sent.metrics { pong_sent = sent.metrics.pong_sent + 1 } }

-- `handlePong`
unfoldable pub handle_pong : RemoteNode → RemoteNode
handle_pong x = record x {
  metrics = record x.metrics { pong_received = x.metrics.pong_received + 1 };
  timer_armed = false;
  ping_failure = 0;
}
