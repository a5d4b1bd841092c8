-- ===== src/Tests/Balancer.antt =====
-- A load balancer with a primary and a backup, and a client whose server fails twice.
use replicated_block_store.Prelude.{
  ℕ, ◌≡◌, ◌≢◌, ◌≤◌, inl, refl, none, some, [], Bytes, codes, bytes_eq, bytes_lt, sym, ◌∙◌, suc,
}
use replicated_block_store.Map.{find, assign}
use replicated_block_store.Server.{StatusCode, ok, unavailable}
use replicated_block_store.LoadBalancer.{
  LoadBalancer, init, primary_str, backup_str, node_at, new_stream, on_heartbeat, on_break,
  next_identity, get_server_to_route_to, route_read, route_write, touch_node, register_node,
  client_at, get_peer_ip, register_heartbeat,
}
use replicated_block_store.LoadBalancer.Routing.{IsAlive, IsValid, IsValid-init, route_read-served}
use replicated_block_store.LoadBalancer.States.{
  Reach, here, up, behind, crashed, beats, reads, Reach-IsValid,
}
use replicated_block_store.LoadBalancer.States
use replicated_block_store.LoadBalancer.Primary.{WritesGoTo, stay, next, Run-WritesGoTo}
use replicated_block_store.LoadBalancer.Failover.{
  noticed, taken_over, takeover, takeover_keeps_backup,
}
use replicated_block_store.Client.{Report, write}
use replicated_block_store.Client.Retry.{IsReport, write_ends}

abbrev ip_1 : Bytes
ip_1 = codes "10.0.0.1:40051"

abbrev ip_2 : Bytes
ip_2 = codes "10.0.0.2:40051"

abbrev with_primary : LoadBalancer
with_primary = (on_heartbeat primary_str ip_1 new_stream init).2

abbrev with_both : LoadBalancer
with_both = (on_heartbeat backup_str ip_2 new_stream with_primary).2

Reach-with_both : Reach (up with_both)
Reach-with_both =
    States.next (States.next here (beats primary_str ip_1 new_stream))
      (beats backup_str ip_2 new_stream)

primary_registered : node_at primary_str with_both.nodes ≡ ip_1
unfolding on_heartbeat register_heartbeat register_node get_peer_ip touch_node find assign bytes_eq
    bytes_lt
primary_registered = refl

backup_registered : node_at backup_str with_both.nodes ≡ ip_2
unfolding on_heartbeat register_heartbeat register_node get_peer_ip touch_node find assign bytes_eq
    bytes_lt
backup_registered = refl

ip_1-not-empty : ip_1 ≢ []
ip_1-not-empty e = cc

ip_2-not-empty : ip_2 ≢ []
ip_2-not-empty e = cc

IsAlive-primary : IsAlive primary_str with_both
IsAlive-primary e = ip_1-not-empty (sym primary_registered ∙ e)

IsAlive-backup : IsAlive backup_str with_both
IsAlive-backup e = ip_2-not-empty (sym backup_registered ∙ e)

Reach-IsValid_example : IsValid with_both
Reach-IsValid_example = Reach-IsValid Reach-with_both

route_read-served_example :
    (target : Bytes) × ((route_read with_both).0 ≡ some target) × IsValid (route_read with_both).1
route_read-served_example =
    route_read-served with_both (Reach-IsValid Reach-with_both) (inl IsAlive-primary)

-- The backup registers, and a read is routed.
Run-WritesGoTo_example : WritesGoTo ip_1 (behind (route_read with_both))
unfolding bytes_eq find
Run-WritesGoTo_example =
    Run-WritesGoTo ip_1 init (behind (route_read with_both)) IsValid-init refl ip_1-not-empty
      (next (next stay (beats backup_str ip_2 new_stream) (inl (λ e. cc))) reads tt)

-- A write in front of the first registration.
early_write : behind (route_write init) ≡ crashed
unfolding route_write client_at find
early_write = refl

takeover_example :
    ((noticed ip_2 with_both).0 ≡ none)
    × (next_identity backup_str (noticed ip_2 with_both).0 ≡ primary_str)
    × (node_at primary_str (taken_over ip_2 with_both).2.nodes ≡ ip_2)
takeover_example = takeover ip_2 with_both

takeover_keeps_backup_example :
    let last = on_break (taken_over ip_2 with_both).1 (taken_over ip_2 with_both).2 in
    ((taken_over ip_2 with_both).0 ≡ some ip_2)
    × (node_at primary_str last.nodes ≡ [])
    × (node_at backup_str last.nodes ≡ ip_2)
    × ((get_server_to_route_to last).0 ≡ backup_str)
takeover_keeps_backup_example =
    takeover_keeps_backup ip_2 with_both (Reach-IsValid Reach-with_both) backup_registered
      ip_2-not-empty

-- A server that is up from the third call on.
abbrev third_call : ℕ → StatusCode × ℕ
third_call n = (if_third n, suc n)
  where
    if_third : ℕ → StatusCode
    if_third (suc (suc n)) = ok
    if_third _ = unavailable

write_ends_example :
    (r : Report ℕ) × (write third_call 0 ≡ some r) × IsReport third_call 0 r × (r.slept ≤ 6)
write_ends_example = write_ends third_call 0
