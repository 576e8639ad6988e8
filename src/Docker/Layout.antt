-- ===== src/Docker/Layout.antt =====
-- executor/docker/container.go: the paths inside a container.
use agentfile.Common.Texts.{Text, codes}

abbrev pub agent_root : Text
agent_root = codes "/"

abbrev pub workspace : Text
workspace = codes "/workspace"

abbrev pub etc_context : Text
etc_context = codes "/etc/context"

abbrev pub etc_data : Text
etc_data = codes "/etc/data"

abbrev pub agentfile_path : Text
agentfile_path = codes "/etc/Agentfile"

abbrev pub agent_yaml : Text
agent_yaml = codes "/etc/agent.yaml"

abbrev pub home : Text
home = codes "/home"

abbrev pub tmp : Text
tmp = codes "/tmp"

abbrev pub var_lib : Text
var_lib = codes "/var/lib"

abbrev pub runtime_dir : Text
runtime_dir = codes "/opt/runtime"

abbrev pub bin_images : Text
bin_images = codes "/opt/bin-images"

abbrev pub bins_root : Text
bins_root = codes "/opt/bins"

abbrev pub daemon_socket : Text
daemon_socket = codes "/run/ottersd.sock"

abbrev pub agent_grpc_port : Text
agent_grpc_port = codes "9999"

abbrev pub label_openotters_agent : Text
label_openotters_agent = codes "io.openotters.agent"
