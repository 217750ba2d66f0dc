-- ===== src/Tests/WholeFile.antt =====
-- A whole file is put and got back by its local manifest.
use s2_decentralised_storage.Prelude.{
  ℕ, ◌≡◌, refl, sym, subst, ap, ◌∙◌, some, List, [], ◌∷◌, ◌++◌, replicate, Bytes, codes, arith, inl,
  bytes_discrete, lookup,
}
use s2_decentralised_storage.Prelude.Assoc.{assign}
use s2_decentralised_storage.Cpp.Stream.{IsWord, read_word, is_space, skip_ws}
use s2_decentralised_storage.Cpp.Sort.{sort}
use s2_decentralised_storage.Cpp.Int.{signed, read_int}
use s2_decentralised_storage.Cpp.Decimal.{read_sign, read_u64, read_number, to_string, print_loop}
use s2_decentralised_storage.Cpp.Hexadecimal.{stoi_hex, hex_magnitude, read_hex, hex_digit, to_u8}
use s2_decentralised_storage.Dss.RoundTrip.{AreUnmatched}
use s2_decentralised_storage.Chunk as Chunk
use s2_decentralised_storage.Chunk.{Chunk, chunk_file, chunk_content, read_loop}
use s2_decentralised_storage.Dht.Id.{
  make_key_id, make_node_id, hex_to_bytes, byte_pairs, id_from_bytes,
}
use s2_decentralised_storage.Dht.Node as Node
use s2_decentralised_storage.Dht.Node.{at_least_one}
use s2_decentralised_storage.Dht.RoutingTable.{closest_nodes, add_node}
use s2_decentralised_storage.Dss as Dss
use s2_decentralised_storage.Manifest.{
  serialize_manifest, write_manifest, entry_lines, encryption_lines, read_manifest,
  parse_manifest_text, labelled, read_entries, read_encryption, read_flag, is_one,
}
use s2_decentralised_storage.Net.Socket.{recv_payload, flatten, recv_line, recv_line_loop, recv}
use s2_decentralised_storage.Peer.Service.{extract_word, extract_size}
use s2_decentralised_storage.Peer.Client as Client
use s2_decentralised_storage.Storage.{strip_prefix, is_found}
use s2_decentralised_storage.Tracker.{is_empty}
use s2_decentralised_storage.Dss.Transfer.{
  with_key, get_content, prepare, make_key, from_chunks, put_content, clamp_replicas, put_chunks,
  upload, ask_targets, upload_missing, manifest_of, params_of, put_manifests, keep_manifest,
}
use s2_decentralised_storage.FileSystem.{FileSystem, read_file, write_file}
use s2_decentralised_storage.Dss.{Result, ok}
use s2_decentralised_storage.Dss.Transfer.{PutFileResult, base_name, put_file, get_file}
use s2_decentralised_storage.Dss.WholeFile.{get_file-put_file, same_chunks}
use s2_decentralised_storage.Crypto.Hybrid.{OpenSsl}
use s2_decentralised_storage.Crypto.Sha256.{sha256_hex, print_hash, pad_two, hex_out}
use s2_decentralised_storage.Tests.Keys.{toy_ssl}
use s2_decentralised_storage.Tests.Download.{cfg, call, any_size}
use s2_decentralised_storage.Tests.Transfer.{mark, abc, mark_sha, unmatched, disk, opens, cut}

-- RSA texts are never empty.
abbrev ssl : OpenSsl
ssl = record toy_ssl { rsa_encrypt = λ key m. some (0 ∷ m) }

abbrev putting : ℕ × FileSystem × Result PutFileResult
putting = put_file mark_sha ssl call any_size 0 disk cfg (codes "f")

abbrev result : PutFileResult
result = record {
  share_uri = codes "dss://file/" ++ replicate 64 b'0';
  local_manifest_path = codes "manifests/f.manifest.txt";
}

put : putting.2 ≡ ok result
unfolding put_file is_empty prepare Dss.ensure Node.create make_key_id hex_to_bytes sha256_hex
    print_hash mark bytes_discrete pad_two hex_out byte_pairs stoi_hex make_node_id read_file lookup
    make_key from_chunks chunk_file chunk_content read_loop put_content clamp_replicas at_least_one
    put_chunks Node.store upload ask_targets upload_missing hex_magnitude read_hex hex_digit
    read_sign skip_ws signed to_u8 id_from_bytes closest_nodes sort Client.has_chunk Client.read_has
    Client.ok_line Client.starts_with_ok strip_prefix recv_line recv_line_loop recv flatten
    manifest_of params_of serialize_manifest put_manifests Client.put_manifest Client.put_request
    Client.read_put keep_manifest write_manifest write_file assign base_name to_string print_loop
    add_node
put = refl

abbrev copy : Bytes
copy = codes "manifests/f.manifest.txt"

-- The manifest is on the disk.
abbrev kept : FileSystem
kept = record disk {
  files =
      (codes "f", abc)
      ∷ (
        copy,
        codes "filename f\nsize 3\nchunk_size 3\nchunks 1\n"
            ++ ((b'0' ∷ b'1' ∷ replicate 62 b'0') ++ codes "\nencrypted 0\n"),
      )
      ∷ [];
}

put_kept : putting.1 ≡ kept
unfolding put_file is_empty prepare Dss.ensure Node.create make_key_id hex_to_bytes sha256_hex
    print_hash mark bytes_discrete pad_two hex_out byte_pairs stoi_hex make_node_id read_file lookup
    make_key from_chunks chunk_file chunk_content read_loop put_content clamp_replicas at_least_one
    put_chunks Node.store upload ask_targets upload_missing hex_magnitude read_hex hex_digit
    read_sign skip_ws signed to_u8 id_from_bytes closest_nodes sort Client.has_chunk Client.read_has
    Client.ok_line Client.starts_with_ok strip_prefix recv_line recv_line_loop recv flatten
    manifest_of params_of serialize_manifest put_manifests Client.put_manifest Client.put_request
    Client.read_put keep_manifest write_manifest write_file assign base_name to_string print_loop
    add_node entry_lines encryption_lines
put_kept = refl

abbrev getting : ℕ × FileSystem × Result (Unit {0})
getting = get_file mark_sha ssl call any_size 0 kept cfg copy (codes "o")

got : getting.2 ≡ ok tt
unfolding get_file is_empty Node.create make_key_id hex_to_bytes sha256_hex print_hash mark
    bytes_discrete pad_two hex_out byte_pairs stoi_hex make_node_id read_file lookup add_node
    with_key Dss.resolve_manifest is_found read_manifest parse_manifest_text labelled read_word
    read_u64 read_number read_entries read_encryption read_flag Dss.unwrap_key get_content
    write_file Dss.get_chunks Dss.candidates_for Dss.ensure Node.find_value Node.store
    Dss.with_all_peers Dss.find_chunk Client.get_chunk Client.read_get Dss.accept_chunk
    Dss.check_chunk Dss.open_chunk recv_line recv_line_loop recv flatten extract_word recv_payload
    extract_size Client.ask_all hex_magnitude read_hex hex_digit read_sign skip_ws signed to_u8
    id_from_bytes closest_nodes sort at_least_one Dss.is_candidate Dss.same_endpoint read_int is_one
got = refl

putting_whole : putting ≡ (putting.0, kept, ok result)
putting_whole = ap (λ f. (putting.0, f, putting.2)) put_kept ∙ ap (λ q. (putting.0, kept, q)) put

getting_whole : getting ≡ (getting.0, getting.1, ok tt)
getting_whole = ap (λ q. (getting.0, getting.1, q)) got

unmatched_chunks :
    (cs : List Chunk)
    → chunk_file any_size disk (codes "f") 3 ≡ Chunk.ok cs
    → AreUnmatched mark_sha ssl call any_size cs
unmatched_chunks cs h =
    subst (AreUnmatched mark_sha ssl call any_size) (same_chunks (sym cut ∙ h)) (unmatched, tt)

f-IsWord : IsWord (base_name [] (codes "f"))
unfolding base_name is_space
f-IsWord = record { nonempty = λ e. cc; graph = (refl, tt) }

get_file-put_file_example : read_file getting.1 (codes "o") ≡ some abc
get_file-put_file_example =
    get_file-put_file mark_sha ssl call any_size (λ k t c h e. cc) 0 putting.0 disk kept cfg
      (codes "f") abc result 0 getting.0 kept getting.1 cfg copy (codes "o") opens f-IsWord
      (omega arith) (omega arith) unmatched_chunks putting_whole (inl (refl, refl)) getting_whole
