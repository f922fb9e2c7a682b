-- ===== src/Server/FirewallClient.antt =====
-- letmeind/src/firewall_client.rs: the requests to letmeinfwd.
use letmein.Base.{ℕ, List, [], ◌∷◌, if◌then◌else◌, Result, ok, err}
use letmein.FwProto.Fields.{FirewallOperation, nack, ack, opens, closes, PortType, IpAddr}
use letmein.FwProto.Message.{FirewallMessage, new_open, new_close}
use letmein.Server.Session.{
  Failure, fw_connect_failed, fw_failed, fw_rejected, FwReply, replied, fw_closed, fw_error,
  fw_connected, fw_sent, fw_got, Run, record_event,
}

-- `FirewallClient::new`
unfoldable pub connect : Run (Unit {0})
connect s =
    if s.fw_connects then (ok tt, record_event fw_connected s) else (err fw_connect_failed, s)

abbrev pub reply_result : FirewallOperation → Result Failure (Unit {0})
reply_result ack = ok tt
reply_result nack = err fw_rejected
reply_result opens = err fw_failed
reply_result closes = err fw_failed

abbrev pub take_reply : List FwReply → Run (Unit {0})
take_reply [] s = (err fw_failed, s)
take_reply (fw_closed ∷ rs) s = (err fw_failed, record s { fw_replies = rs })
take_reply (fw_error ∷ rs) s = (err fw_failed, record s { fw_replies = rs })
take_reply (replied m ∷ rs) s =
    (reply_result m.operation, record s { fw_replies = rs; trace = fw_got m ∷ s.trace })

-- One request and its reply.
unfoldable pub exchange : FirewallMessage → Run (Unit {0})
exchange m s =
    let s' = record_event (fw_sent m) s in
    if s.fw_sends then take_reply s.fw_replies s' else (err fw_failed, s')

unfoldable pub open_port : IpAddr → PortType → ℕ → Run (Unit {0})
unfolding exchange
open_port addr port_type port = exchange (new_open addr port_type port)

unfoldable pub close_port : IpAddr → PortType → ℕ → Run (Unit {0})
unfolding exchange
close_port addr port_type port = exchange (new_close addr port_type port)
