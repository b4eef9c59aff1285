-- ===== src/Vita/Net.antt =====
-- vita/net.c: the transfers of the console, by libcurl as in Pc.Net. A reply of `err` carries
-- `last_error`.
pub mod Fetched
use vhdb.Base.{
  ℕ, ◌+◌, ◌-◌, ◌==◌, ltb, if◌then◌else◌, Bool, true, false, not, ◌&&◌, List, [], ◌++◌, Option, none,
  some, length, take, codes,
}
use vhdb.Base.Decimal.{print_unsigned}
use vhdb.Base.Lines.{copied}
use vhdb.Pc.Net.{
  Reply, ok, err, Request, Transfer, Curl, deliver, failure, MemorySink, empty_sink, Disk,
  FileSystem, put,
}

-- What a call runs on: the error text of `vhdb_net_start`, if the network is not ready and does not
-- start, libcurl, the files of the console, and whether the callback of the progress cancels.
pub record System : Type 0 where
  pub start_error : Option (List ℕ)
  pub curl : Curl
  pub disk : Disk
  pub cancels : Bool

-- `write_memory`, which takes every block and stores what fits.
unfoldable pub write_memory : MemorySink → List ℕ → MemorySink × Bool
write_memory sink block =
    let room = sink.size - length sink.stored in
    let total = if ltb room (length block) then room else length block in
    (record sink { stored = sink.stored ++ take total block }, true)

-- The request of `vhdb_net_head`.
abbrev pub head_request : List ℕ → ℕ → Request
head_request url size = record {
  url = url;
  range = some (copied 64 (codes "0-" ++ print_unsigned (size - 1)));
  login = none;
}

unfoldable pub head_of : ℕ → Transfer → Reply (List ℕ)
head_of size t =
    let end = deliver write_memory (empty_sink size) t.blocks in
    if not (end.1 && t.completes)
    then err (failure t)
    else if length end.0.stored == size
    then ok end.0.stored
    else err (codes "the server ignored the range request")

-- `vhdb_net_head`
unfoldable pub head : System → List ℕ → ℕ → Reply (List ℕ)
head system url size = elim system.start_error [
  | some message ↦ err message
  | none ↦
      if not system.curl.init
      then err []
      else head_of size (system.curl.transfer (head_request url size))
]

-- What `write_to_file` has written, and whether a write failed.
pub record FileSink : Type 0 where
  pub written : List ℕ
  pub write_failed : Bool

unfoldable pub write_to_file : Disk → FileSink → List ℕ → FileSink × Bool
write_to_file disk sink block =
    if disk.writes sink.written block
    then (record sink { written = sink.written ++ block }, true)
    else (record sink { write_failed = true }, false)

-- The error text where a transfer to a file failed.
unfoldable pub fetch_error : Bool → FileSink → Transfer → List ℕ
fetch_error cancels sink t =
    if cancels
    then codes "cancelled"
    else if sink.write_failed
    then codes "the memory card is full"
    else failure t

abbrev pub temp_path : List ℕ → List ℕ
temp_path path = copied 256 (path ++ codes ".part")

-- From the end of the transfer on: what the write function made of the data, and its last answer.
-- A call that is cancelled ends with CURLE_ABORTED_BY_CALLBACK.
unfoldable pub after_fetch :
    System → Transfer → List ℕ → FileSystem → FileSink × Bool → Reply (Unit {0}) × FileSystem
after_fetch system t path fs end =
    let temp = temp_path path in
    let bare = put path none fs in
    if not (end.1 && (t.completes && not system.cancels))
    then (err (fetch_error system.cancels end.0 t), put temp none fs)
    else if system.disk.renames
    then (ok tt, put temp none (put path (some end.0.written) bare))
    else (err (codes "cannot put the file into place"), put temp none bare)

-- `vhdb_net_fetch`. The file at the temporary path stays open while it is written, so that what it
-- holds on the way shows nowhere.
unfoldable pub fetch : System → List ℕ → List ℕ → FileSystem → Reply (Unit {0}) × FileSystem
fetch system url path fs =
    let temp = temp_path path in
    let bare = put temp none fs in
    let t = system.curl.transfer (record { url = url; range = none; login = none }) in
    let end =
      deliver (write_to_file system.disk) (record { written = []; write_failed = false })
        t.blocks in
    elim system.start_error [
      | some message ↦ (err message, fs)
      | none ↦
          if not (system.disk.opens temp)
          then (err (codes "cannot write to the memory card"), bare)
          else if not system.curl.init
          then (err [], put temp none (put temp (some []) bare))
          else after_fetch system t path (put temp (some end.0.written) bare) end
    ]
