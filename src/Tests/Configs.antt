-- ===== src/Tests/Configs.antt =====
-- fs/kfs_config.c on the configuration of fs/kfsd.conf.
use kanekfs.Base.{pos, ◌≡◌, refl, arith, List, ℕ, negsuc, some}
use kanekfs.Text.{trim, right_loop, left_loop, strcpy_down}
use kanekfs.Mkfs.Numbers.{digits_from}
use kanekfs.Config.{
  Config, codes, empty_config, kfs_config_read, read_lines, fgets_lines, fgets_from, read_line,
  until_nul, key_value, strtok, skip_delims, take_token, set_value, equal, atoi, signed,
  skip_spaces,
}
use kanekfs.Config.Settings.{print_settings}
use kanekfs.Config.Cycle.{IsPrintable, settings, kfs_config_read-print_settings}

abbrev config : Config
config = record {
  kfs_file = codes "./myfs";
  pid_file = codes "/var/run/kfs.pid";
  sock_file = codes "/var/sock/kfs.sock";
  cache_page_len = pos 1024;
  cache_ino_len = pos 128;
  cache_path_len = pos 256;
  cache_graph_len = pos 512;
  threads_pool = pos 8;
  max_clients = pos 16;
  root_super_inode = pos 0;
  sock_buffer_size = pos 2048;
}

config-IsPrintable : IsPrintable config
config-IsPrintable = record {
  kfs_file_word = (omega arith, omega arith, (refl, (refl, (refl, (refl, (refl, (refl, tt)))))));
  pid_file_word = (
    omega arith,
    omega arith,
    (
      refl,
      (
        refl,
        (
          refl,
          (
            refl,
            (
              refl,
              (
                refl,
                (refl, (refl, (refl, (refl, (refl, (refl, (refl, (refl, (refl, (refl, tt)))))))))),
              ),
            ),
          ),
        ),
      ),
    ),
  );
  sock_file_word = (
    omega arith,
    omega arith,
    (
      refl,
      (
        refl,
        (
          refl,
          (
            refl,
            (
              refl,
              (
                refl,
                (
                  refl,
                  (
                    refl,
                    (
                      refl,
                      (refl, (refl, (refl, (refl, (refl, (refl, (refl, (refl, (refl, tt))))))))),
                    ),
                  ),
                ),
              ),
            ),
          ),
        ),
      ),
    ),
  );
  cache_page_len_int = omega arith;
  cache_ino_len_int = omega arith;
  cache_path_len_int = omega arith;
  cache_graph_len_int = omega arith;
  threads_pool_int = omega arith;
  max_clients_int = omega arith;
  root_super_inode_int = omega arith;
  sock_buffer_size_int = omega arith;
}

kfs_config_read-print_settings_example :
    kfs_config_read (some (print_settings (settings config))) ≡ some (pos 0, config)
kfs_config_read-print_settings_example = kfs_config_read-print_settings config config-IsPrintable

-- Blanks, a comment without an end and a key without a value; and a key that is not known.
abbrev two_lines : List ℕ
two_lines = codes "\n# pid\nkfs_file\nmax_clients= -12 \n"

skips_lines :
    kfs_config_read (some two_lines) ≡ some (pos 0, record empty_config { max_clients = negsuc 11 })
unfolding kfs_config_read read_lines fgets_lines fgets_from read_line trim right_loop left_loop
    strcpy_down until_nul key_value strtok skip_delims take_token set_value equal atoi signed
    skip_spaces digits_from
skips_lines = refl

unknown_key : kfs_config_read (some (codes "a = b")) ≡ some (negsuc 0, empty_config)
unfolding kfs_config_read read_lines fgets_lines fgets_from read_line trim right_loop left_loop
    strcpy_down until_nul key_value strtok skip_delims take_token set_value equal atoi signed
    skip_spaces digits_from
unknown_key = refl
