-- ===== src/Pc/Net.antt =====
-- pc/net.c: transfers by libcurl, which is a parameter. A reply of `err` carries `last_error`.
pub mod Sink
pub mod Download
use vhdb.Base.{
  ℕ, zero, suc, ◌+◌, ◌-◌, ◌==◌, ltb, if◌then◌else◌, Bool, true, false, not, ◌&&◌, List, [], ◌∷◌,
  ◌++◌, Option, none, some, length, take, equal, codes, replicate,
}
use vhdb.Base.Decimal.{print_unsigned}
use vhdb.Base.Lines.{copied}
use vhdb.Md5

pub data Reply (A : Type 0) : Type 0 where
  ok : A → Reply A
  err : List ℕ → Reply A

-- The options of a transfer that differ from call to call: a range, and a login.
pub record Request : Type 0 where
  pub url : List ℕ
  pub range : Option (List ℕ)
  pub login : Option (List ℕ)

-- What libcurl does on `curl_easy_perform`: the blocks that it hands to the write function, whether
-- it then ends with CURLE_OK, the text that it leaves in the error buffer, that of
-- `curl_easy_strerror`, and `CURLINFO_SIZE_DOWNLOAD_T`.
pub record Transfer : Type 0 where
  pub blocks : List (List ℕ)
  pub completes : Bool
  pub message : List ℕ
  pub strerror : List ℕ
  pub downloaded : ℕ

-- libcurl: whether `curl_easy_init` works, and the transfer of a request.
pub record Curl : Type 0 where
  pub init : Bool
  pub transfer : Request → Transfer

-- The write function on one block after the other; libcurl stops at the first block that it does
-- not take whole, with CURLE_WRITE_ERROR.
unfoldable pub deliver : {S : Type 0} → (S → List ℕ → S × Bool) → S → List (List ℕ) → S × Bool
deliver write s [] = (s, true)
deliver write s (block ∷ blocks) =
    let next = write s block in
    let rest = deliver write next.0 blocks in if next.1 then rest else (next.0, false)

-- The error text where a transfer failed.
unfoldable pub failure : Transfer → List ℕ
failure t = if equal t.message [] then copied 256 t.strerror else t.message

-- `curl_easy_perform`: what the write function made of the data, or the error.
unfoldable pub perform : {S : Type 0} → (S → List ℕ → S × Bool) → S → Transfer → Reply S
perform write s t =
    let end = deliver write s t.blocks in if end.1 && t.completes then ok end.0 else err (failure t)

-- `memory_sink`: the room, and the bytes that were stored.
pub record MemorySink : Type 0 where
  pub size : ℕ
  pub stored : List ℕ

-- `write_memory`; the flag says that it returns the size of the block. libcurl passes no empty
-- block.
unfoldable pub write_memory : MemorySink → List ℕ → MemorySink × Bool
write_memory sink block =
    let room = sink.size - length sink.stored in
    let total = if ltb room (length block) then room else length block in
    if total == 0
    then (sink, length block == 0)
    else (record sink { stored = sink.stored ++ take total block }, true)

abbrev pub empty_sink : ℕ → MemorySink
empty_sink size = record { size = size; stored = [] }

-- `credentials`
unfoldable pub login : List ℕ → List ℕ → List ℕ
login user pass =
    if equal user [] then codes "anonymous:vhdb@local" else copied 160 (user ++ (b':' ∷ pass))

abbrev pub ftp_request : List ℕ → List ℕ → List ℕ → Request
ftp_request url user pass = record { url = url; range = none; login = some (login user pass) }

-- What a transfer into memory of a size stores.
unfoldable pub receive : Curl → ℕ → Request → Reply MemorySink
receive curl size request =
    if not curl.init then err [] else perform write_memory (empty_sink size) (curl.transfer request)

-- `vhdb_net_head_bytes`
unfoldable pub all_of : ℕ → Reply MemorySink → Reply (List ℕ)
all_of size (err message) = err message
all_of size (ok sink) =
    if length sink.stored == size
    then ok sink.stored
    else err (codes "server ignored the range request")

unfoldable pub head_bytes : Curl → List ℕ → ℕ → Reply (List ℕ)
head_bytes curl url size = all_of size (
    receive curl size (record {
      url = url;
      range = some (copied 64 (codes "0-" ++ print_unsigned (size - 1)));
      login = none;
    }))

-- `vhdb_net_ftp_get` into a buffer of a size.
unfoldable pub stored_of : Reply MemorySink → Reply (List ℕ)
stored_of (err message) = err message
stored_of (ok sink) = ok sink.stored

unfoldable pub ftp_get : Curl → List ℕ → List ℕ → List ℕ → ℕ → Reply (List ℕ)
ftp_get curl url user pass size = stored_of (receive curl size (ftp_request url user pass))

-- `vhdb_net_ftp_list`: the text in the array, whose last byte is kept for the NUL.
unfoldable pub ftp_list : Curl → List ℕ → List ℕ → List ℕ → ℕ → Reply (List ℕ)
ftp_list curl url user pass size = stored_of (receive curl (size - 1) (ftp_request url user pass))

-- `write_md5`
unfoldable pub write_md5 : Md5.Context → List ℕ → Md5.Context × Bool
write_md5 ctx block = (Md5.update ctx block, true)

unfoldable pub digest_of : ℕ → Reply Md5.Context → Reply (List ℕ × ℕ)
digest_of downloaded (err message) = err message
digest_of downloaded (ok ctx) =
    if downloaded == 0 then err (codes "the file is empty") else ok (Md5.final ctx, downloaded)

-- `vhdb_net_ftp_md5`: the digest and the size.
unfoldable pub ftp_md5 : Curl → List ℕ → List ℕ → List ℕ → Reply (List ℕ × ℕ)
ftp_md5 curl url user pass =
    let t = curl.transfer (ftp_request url user pass) in
    if not curl.init then err [] else digest_of t.downloaded (perform write_md5 Md5.init t)

-- `vhdb_net_ftp_upload`, whose data libcurl takes by itself: `opens` says that the local file does.
unfoldable pub ftp_upload : Curl → Bool → List ℕ → List ℕ → List ℕ → Reply (Unit {0})
ftp_upload curl opens url user pass =
    let t = curl.transfer (ftp_request url user pass) in
    if not opens
    then err (codes "cannot read the local file")
    else if not curl.init
    then err []
    else if not t.completes
    then err (failure t)
    else ok tt

-- A file system: the bytes at a path.
abbrev pub FileSystem : Type 0
FileSystem = List ℕ → Option (List ℕ)

unfoldable pub put : List ℕ → Option (List ℕ) → FileSystem → FileSystem
put path content fs p = if equal p path then content else fs p

-- What the C library answers to `vhdb_net_download`: whether a path opens for writing, whether a
-- block is written behind those before it, and whether the temporary file can be renamed.
pub record Disk : Type 0 where
  pub opens : List ℕ → Bool
  pub writes : List ℕ → List ℕ → Bool
  pub renames : Bool

-- `write_file`
unfoldable pub write_file : Disk → List ℕ → List ℕ → List ℕ × Bool
write_file disk before block = (before ++ block, disk.writes before block)

abbrev pub temp_of : List ℕ → List ℕ
temp_of path = copied 1024 (path ++ codes ".part")

-- The last step: the file takes the place of an older one.
unfoldable pub into_place : Disk → List ℕ → List ℕ → FileSystem → Reply (Unit {0}) × FileSystem
into_place disk path bytes fs =
    let temp = temp_of path in
    let bare = put path none fs in
    if disk.renames
    then (ok tt, put temp none (put path (some bytes) bare))
    else (err (codes "cannot move " ++ (take 180 temp ++ codes " into place")), put temp none bare)

unfoldable pub after_transfer :
    Disk → List ℕ → FileSystem → Reply (List ℕ) → Reply (Unit {0}) × FileSystem
after_transfer disk path fs (err message) = (err message, put (temp_of path) none fs)
after_transfer disk path fs (ok bytes) =
    into_place disk path bytes (put (temp_of path) (some bytes) fs)

-- `vhdb_net_download`. The progress function only prints.
unfoldable pub download : Curl → Disk → List ℕ → List ℕ → FileSystem → Reply (Unit {0}) × FileSystem
download curl disk url path fs =
    let temp = temp_of path in
    let opened = put temp (some []) fs in
    if not (disk.opens temp)
    then (err (codes "cannot write " ++ take 180 temp), fs)
    else if not curl.init
    then (err [], put temp none opened)
    else after_transfer disk path opened (
        perform (write_file disk) []
          (curl.transfer (record { url = url; range = none; login = none })))
