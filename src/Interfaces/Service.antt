-- ===== src/Interfaces/Service.antt =====
-- interfaces/grpc.rs: the service as one handler, by the request.
use meesign_server.Communicator.Messages.{Crypto}
use meesign_server.Interfaces.{Web, Handler}
use meesign_server.Interfaces.Auth.{RequestMeta}
use meesign_server.Interfaces.Grpc.{Surroundings}
use meesign_server.Interfaces.Grpc
use meesign_server.Interfaces.Messages.{Rpc, Answer}
use meesign_server.State.{State, Services}

-- `impl MeeSign for MeeSignService`
unfoldable pub serve :
    {R Tx : Type 0}
    → ⦃x : Crypto⦄ → Web Tx
    → Services R Tx
    → Surroundings Tx
    → RequestMeta
    → Rpc
    → Handler (State R Tx) Answer
unfolding Grpc.get_server_info Grpc.get_devices Grpc.subscribe_updates Grpc.register Grpc.sign
    Grpc.decrypt Grpc.group Grpc.get_task Grpc.update_task Grpc.get_tasks Grpc.get_groups Grpc.log
    Grpc.decide_task Grpc.acknowledge_task
serve w v e meta Rpc.get_server_info = Grpc.get_server_info w v e meta
serve w v e meta Rpc.get_devices = Grpc.get_devices w v e meta
serve w v e meta Rpc.subscribe_updates = Grpc.subscribe_updates w v e meta
serve w v e meta (Rpc.register name csr) = Grpc.register w v e meta name csr
serve w v e meta (Rpc.sign g name content) = Grpc.sign w v e meta g name content
serve w v e meta (Rpc.decrypt g name content kind) = Grpc.decrypt w v e meta g name content kind
serve w v e meta (Rpc.group request) = Grpc.group w v e meta request
serve w v e meta (Rpc.get_task id d) = Grpc.get_task w v e meta id d
serve w v e meta (Rpc.update_task id contents attempt) =
    Grpc.update_task w v e meta id contents attempt
serve w v e meta (Rpc.get_tasks d) = Grpc.get_tasks w v e meta d
serve w v e meta (Rpc.get_groups d) = Grpc.get_groups w v e meta d
serve w v e meta (Rpc.log message) = Grpc.log w v e meta
serve w v e meta (Rpc.decide_task id accept) = Grpc.decide_task w v e meta id accept
serve w v e meta (Rpc.acknowledge_task id) = Grpc.acknowledge_task w v e meta id
