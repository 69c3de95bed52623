-- ===== src/Tests/Fixtures.antt =====
-- The peers, the network and the machines of the runs.
use udp_secure_transfer.Prelude.{ℕ, refl, true, false, some, List, length, codes}
use udp_secure_transfer.Prelude.{min, arith}
use udp_secure_transfer.Demo.Stream.{Socket, Flows}
use udp_secure_transfer.Tcp.Client.{Files}
use udp_secure_transfer.Tcp.Records.{Works as CanWrite}
use udp_secure_transfer.Prelude.{false}
use udp_secure_transfer.Protocol.{Peer}
use udp_secure_transfer.Protocol.Recv.{Link}
use udp_secure_transfer.Protocol.Delivery.{Delivers}
use udp_secure_transfer.Session.Plain.{Works}
use udp_secure_transfer.Client.Transfer.{Disk}
use udp_secure_transfer.Client.Reliable.{Heap}
use udp_secure_transfer.Client.Reliable.Slots.{Allocates}

abbrev pub client : Peer
client = record { family = 2; port = 50000; address = 0x7f000001 }

abbrev pub server : Peer
server = record { family = 2; port = 9000; address = 0x7f000001 }

abbrev pub wire_link : Link
wire_link k wire = some (length wire)

pub wire_link-Delivers : Delivers wire_link
wire_link-Delivers k wire = refl

abbrev pub good_disk : Disk
good_disk = record {
  fwrite = λ k bytes. length bytes;
  opens = true;
  read_error = false;
  renames = true;
}

pub good_disk-Works : Works good_disk
good_disk-Works = record {
  writes = λ k bytes. refl;
  reopens = refl;
  rereads = refl;
  commits = refl;
}

abbrev pub large_heap : Heap
large_heap = record { reallocs = λ k. true; mallocs = λ k. true }

pub large_heap-Allocates : Allocates large_heap
large_heap-Allocates = record { reallocs = λ k. refl; mallocs = λ k. refl }

abbrev pub secret : List ℕ
secret = codes "secret"

abbrev pub guess : List ℕ
guess = codes "guess"

-- A socket that moves one byte a call.
abbrev pub one_byte : Socket
one_byte k len = some (min 1 len)

pub one_byte-Flows : Flows one_byte
one_byte-Flows = record {
  amount = λ k len. min 1 len;
  moves = λ k len. refl;
  some_bytes = λ k len h. omega arith;
  no_more = λ k len. omega arith;
}

abbrev pub files : Files
files = record { fwrite = λ bytes. length bytes; opens = true; read_error = false; renames = true }

pub files-Works : CanWrite files
files-Works = record { writes = λ bytes. refl; reopens = refl; rereads = refl; commits = refl }
