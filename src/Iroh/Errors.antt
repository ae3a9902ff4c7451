-- ===== src/Iroh/Errors.antt =====
-- crates/kamiroh-adapter-iroh/src/lib.rs: the errors of the net and of the transport, and their
-- printed forms.
use kamiroh.Common.{Text, codes, ◌++◌}

pub data IrohNetError : Type 0 where
  bad_secret bad_endpoint_id : IrohNetError
  bind_error addr_error : Text → IrohNetError
  wrong_endpoint name_in_use : IrohNetError

unfoldable pub net_error_text : IrohNetError → Text
net_error_text bad_secret = codes "secret must be 32 bytes of key material"
net_error_text bad_endpoint_id = codes "endpoint id is not a valid public key"
net_error_text (bind_error e) = codes "binding endpoint failed: " ++ e
net_error_text (addr_error e) = codes "obtaining endpoint address failed: " ++ e
net_error_text wrong_endpoint = codes "address belongs to a different endpoint than this net"
net_error_text name_in_use = codes "an actor with this name is already bound"

pub data IrohTransportError : Type 0 where
  not_our_endpoint unknown_peer : IrohTransportError
  encode_error connect_error stream_error : Text → IrohTransportError

unfoldable pub transport_error_text : IrohTransportError → Text
transport_error_text not_our_endpoint = codes "from-address is not on this endpoint"
transport_error_text unknown_peer = codes "target endpoint is not in the peer book"
transport_error_text (encode_error e) = codes "frame encoding failed: " ++ e
transport_error_text (connect_error e) = codes "connecting failed: " ++ e
transport_error_text (stream_error e) = codes "stream failed: " ++ e
